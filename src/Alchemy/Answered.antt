-- ===== src/Alchemy/Answered.antt =====
-- The balances that the two providers give, with the strategies, the adapters and the factories together.
use onekey_balance_kit.Adapters.Coherent.{ask_adapters, empty_adapters}
use onekey_balance_kit.Adapters.Completed.{IsComplete}
use onekey_balance_kit.Adapters.{RawBalances}
use onekey_balance_kit.Alchemy.Answers.{get_balances_in_form}
use onekey_balance_kit.Alchemy.Calls.{get_balances}
use onekey_balance_kit.Alchemy.Remotes.{Clients, ask_balances, remote_of, remote_of-in_form}
use onekey_balance_kit.Alchemy.{Strategy, create_facade, on_module_init, get_strategy}
use onekey_balance_kit.Base.{◌≡◌, Bool, true, Option, some, List, [], Text}
use onekey_balance_kit.Cache.{returned}
use onekey_balance_kit.Chains.Alchemy.{Network}
use onekey_balance_kit.Chains.{ChainName}
use onekey_balance_kit.ProviderApi.{NetworkType, BalancesResponse}
use onekey_balance_kit.Providers.{ProviderType}
use onekey_balance_kit.QuickNode.Provided.{quicknode_balances_in_form}
use onekey_balance_kit.QuickNode.Provider.{
  create_provider, start_provider, strategy_of, quicknode_balances,
}

-- After the start of the Alchemy provider, when the strategy of a chain returns a raw answer, the balances
-- are returned too: the adapter that the factory has for the chain, whatever adapters were asked for
-- before, can read the answer. They are the native balance, the tokens and the NFTs of the answer, in
-- their order, each with its address, balance, symbol, decimals, name, image and collection; only what
-- is missing or empty there is filled in.
pub get_balances_answered :
    {N : Type 0} (networks : Network N) (config : Text → Option Text)
    (constructs : Strategy N → Bool) (clients : Clients N)
    (asked : List (ChainName × Option ProviderType)) (c : ChainName) (network : NetworkType)
    (address : Text) (strategy : Strategy N) (raw : RawBalances)
    → let started = on_module_init networks config constructs (create_facade config) in
      get_strategy network (some c) started ≡ some strategy
      → ask_balances clients strategy address network ≡ returned raw
      → (b : BalancesResponse) × ((get_balances
            (remote_of clients)
            address
            network
            (some c)
            started
            (ask_adapters asked empty_adapters)).0
          ≡ returned b)
        × IsComplete raw b
get_balances_answered networks config constructs clients asked c network address strategy raw has
      answers =
    get_balances_in_form networks config constructs (remote_of clients) (remote_of-in_form clients)
      asked c network address strategy raw has answers

-- After the start of the QuickNode provider on no strategies, when its strategy for a network returns a raw
-- answer on a valid address, the balances are returned too: the adapter that the factory has for
-- QuickNode, whatever adapters were asked for before, can read the answer. They are the native
-- balance, the tokens and the NFTs of the answer, as for Alchemy.
pub quicknode_balances_answered :
    {N : Type 0} (config : Text → Option Text) (connects : Text → Bool) (builds : Strategy N → Bool)
    (clients : Clients N) (is_address : Text → Bool)
    (asked : List (ChainName × Option ProviderType)) (network : NetworkType) (address : Text)
    (strategy : Strategy N) (raw : RawBalances)
    → let started = (start_provider config connects builds create_provider []).0 in
      is_address address ≡ true
      → strategy_of network started ≡ some strategy
      → ask_balances clients strategy address network ≡ returned raw
      → (b : BalancesResponse) × ((quicknode_balances
            (remote_of clients)
            is_address
            address
            network
            started
            (ask_adapters asked empty_adapters)).0
          ≡ returned b)
        × IsComplete raw b
quicknode_balances_answered config connects builds clients is_address asked network address strategy
      raw valid has answers =
    quicknode_balances_in_form config connects builds (remote_of clients) is_address
      (remote_of-in_form clients) asked network address strategy raw valid has answers
