-- ===== src/QuickNode/Provided.antt =====
-- The balances that the QuickNode provider gives after its start.
use onekey_balance_kit.Adapters.Coherent.{ask_adapters, empty_adapters, for_provider-kind}
use onekey_balance_kit.Adapters.Completed.{IsComplete, to_balances_response-IsComplete}
use onekey_balance_kit.Adapters.{
  quicknode_adapter, adapter_kind, BalanceAdapterFactory, RawBalances, for_provider,
  to_balances_response,
}
use onekey_balance_kit.Alchemy.Answers.{reader, kind_of, AnswersInForm, to_balances_response_lem}
use onekey_balance_kit.Alchemy.Calls.{Remote}
use onekey_balance_kit.Alchemy.Strategies.{create_quicknode_strategy, cached, client_of}
use onekey_balance_kit.Alchemy.{Strategy, evm_quicknode}
use onekey_balance_kit.Base.{
  ◌≡◌, refl, subst, Bool, true, false, Option, none, some, List, [], Text, or_else, get, is_some,
  if◌then◌else◌, arith, ap, sym, ◌∙◌, ◌&&◌, Bool-cases, Option-cases, inl, inr,
}
use onekey_balance_kit.Cache.{returned}
use onekey_balance_kit.Chains.{ChainName, ethereum, is_evm_chain}
use onekey_balance_kit.ProviderApi.{NetworkType, mainnet, testnet, BalancesResponse}
use onekey_balance_kit.Providers.{ProviderType, quicknode}
use onekey_balance_kit.QuickNode.Provider.{
  EthereumQuickNodeProvider, create_provider, mainnet_url, testnet_url, connected,
  initialize_clients, initialize_quicknode_strategies, start_provider, strategy_of,
  quicknode_is_supported, quicknode_balances,
}

ethereum-kind : adapter_kind ethereum (some quicknode) ≡ quicknode_adapter
unfolding is_evm_chain
ethereum-kind = refl

-- A call whose strategy answers and whose adapter reads the answer.
quicknode_balances_read :
    {N X : Type 0} (remote : Remote N X) (is_address : Text → Bool)
    (s : EthereumQuickNodeProvider N) (f : BalanceAdapterFactory) (network : NetworkType)
    (address : Text) (strategy : Strategy N) (raw : RawBalances) (b : BalancesResponse)
    → is_address address ≡ true
    → strategy_of network s ≡ some strategy
    → remote.get_raw_balances strategy address network ≡ returned raw
    → (for_provider ethereum (some quicknode) f).0.kind ≡ reader raw
    → to_balances_response (reader raw) raw ≡ returned b
    → (quicknode_balances remote is_address address network s f).0 ≡ returned b
unfolding quicknode_balances
quicknode_balances_read remote is_address s f network address strategy raw b valid has answers reads
      gives =
    rw (quicknode_balances, valid, has, answers, reads) gives

module _ {N X : Type 0} (config : Text → Option Text) (connects : Text → Bool)
    (builds : Strategy N → Bool) (remote : Remote N X) (is_address : Text → Bool) where
  abbrev quicknode_strategy : Strategy N
  quicknode_strategy =
      evm_quicknode (client_of (some (or_else (config mainnet_url) [])))
        (client_of (some (or_else (config testnet_url) [])))

  abbrev started : EthereumQuickNodeProvider N
  started = (start_provider config connects builds create_provider []).0

  -- The QuickNode strategy of both URLs, if it and the client of the main net can be made.
  abbrev pub expected_strategy : Option (Strategy N)
  expected_strategy =
      if is_some (connected connects (config mainnet_url)) && builds quicknode_strategy
      then some quicknode_strategy
      else none

  unmade :
      (s : EthereumQuickNodeProvider N)
      → s.mainnet_client ≡ none
      → (initialize_quicknode_strategies config connects builds s []).0 ≡ s
  unfolding initialize_quicknode_strategies
  unmade s e = simp (initialize_quicknode_strategies, e)

  failed_ :
      (s : EthereumQuickNodeProvider N) (url : Text)
      → s.mainnet_client ≡ some url
      → builds quicknode_strategy ≡ false
      → (initialize_quicknode_strategies config connects builds s []).0 ≡ s
  unfolding initialize_quicknode_strategies create_quicknode_strategy cached get is_evm_chain
  failed_ s url e h = simp (initialize_quicknode_strategies, e, create_quicknode_strategy, h)

  made :
      (s : EthereumQuickNodeProvider N) (url : Text)
      → s.mainnet_client ≡ some url
      → builds quicknode_strategy ≡ true
      → (initialize_quicknode_strategies config connects builds s []).0 ≡ record s {
        mainnet_strategy = some quicknode_strategy;
        testnet_strategy = some quicknode_strategy;
      }
  unfolding initialize_quicknode_strategies create_quicknode_strategy cached get is_evm_chain
  made s url e h = simp (initialize_quicknode_strategies, e, create_quicknode_strategy, h)

  abbrev Both : EthereumQuickNodeProvider N → Type 0
  Both s = (s.mainnet_strategy ≡ expected_strategy) × (s.testnet_strategy ≡ expected_strategy)

  Both-started : Both started
  unfolding start_provider initialize_clients
  Both-started =
      let s : EthereumQuickNodeProvider N =
        initialize_clients config connects builds create_provider in
      elim (Option-cases (connected connects (config mainnet_url))) [
        | inl missing ↦ subst Both (sym (unmade s missing)) (rw missing (refl, refl))
        | inr (url, there) ↦ elim (Bool-cases (builds quicknode_strategy)) [
          | inl builds_ ↦
              subst Both (sym (made s url there builds_)) (rw (there, builds_) (refl, refl))
          | inr fails ↦
              subst Both (sym (failed_ s url there fails)) (rw (there, fails) (refl, refl))
        ]
      ]

  strategy_of-started : (network : NetworkType) → strategy_of network started ≡ expected_strategy
  strategy_of-started mainnet = Both-started.0
  strategy_of-started testnet = Both-started.1

  expected-kind :
      (strategy : Strategy N)
      → expected_strategy ≡ some strategy
      → kind_of strategy ≡ quicknode_adapter
  expected-kind strategy e =
      elim (Bool-cases
        (is_some (connected connects (config mainnet_url)) && builds quicknode_strategy)) [
          | inr lacks ↦ absurd (let f = rw lacks at e in ground (arith, f))
          | inl has ↦
              let made : some quicknode_strategy ≡ some strategy = rw has at e in
              let is : quicknode_strategy ≡ strategy = ground arith in rw (← is) refl
        ]

  -- The provider is supported after its start exactly if the client of the main net's URL and the
  -- clients of the strategy can be constructed.
  pub quicknode_is_supported-start_provider :
      quicknode_is_supported started ≡ is_some expected_strategy
  unfolding quicknode_is_supported
  quicknode_is_supported-start_provider = ap is_some Both-started.0

  -- After the start of the provider on no strategies, when its strategy for a network returns an answer,
  -- in the form of the strategy's provider, on a valid address, the balances are returned too: the
  -- adapter that the factory has for QuickNode, whatever adapters were asked for before, can
  -- read the answer. They are those of the answer, with what is missing filled in.
  pub quicknode_balances_in_form :
      AnswersInForm remote
      → (asked : List (ChainName × Option ProviderType)) (network : NetworkType) (address : Text)
        (strategy : Strategy N) (raw : RawBalances)
      → is_address address ≡ true
      → strategy_of network started ≡ some strategy
      → remote.get_raw_balances strategy address network ≡ returned raw
      → (b : BalancesResponse) × ((quicknode_balances remote is_address address network started
            (ask_adapters asked empty_adapters)).0
          ≡ returned b)
        × IsComplete raw b
  quicknode_balances_in_form in_form asked network address strategy raw valid has answers =
      let of_kind = expected-kind strategy (sym (strategy_of-started network) ∙ has) in
      let f : BalanceAdapterFactory = ask_adapters asked empty_adapters in
      let reads : (for_provider ethereum (some quicknode) f).0.kind ≡ reader raw =
        for_provider-kind asked ethereum (some quicknode)
        ∙ ethereum-kind
        ∙ sym of_kind
        ∙ sym (in_form strategy address network raw answers) in
      let (b, gives) = to_balances_response_lem raw in
      (
        b,
        quicknode_balances_read remote is_address started f network address strategy raw b valid has
            answers reads gives,
        to_balances_response-IsComplete raw b (reader raw) gives,
      )
