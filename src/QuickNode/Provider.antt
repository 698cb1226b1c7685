-- ===== src/QuickNode/Provider.antt =====
-- providers/implementations/ethereum/ethereum-quicknode.provider.ts: the QuickNode provider of Ethereum. A
-- client is its URL; `connects` tells whether the constructor of a client returns. The strategies of
-- the strategy factory and the adapters, which all providers share, are passed along.
use onekey_balance_kit.Adapters.{
  AdapterKind, BalanceAdapterFactory, for_provider, to_balances_response,
}
use onekey_balance_kit.Alchemy.Calls.{Remote, RawEstimate, to_gas_price, to_estimate_gas}
use onekey_balance_kit.Alchemy.Strategies.{create_quicknode_strategy}
use onekey_balance_kit.Alchemy.{Strategy}
use onekey_balance_kit.Base.{
  Bool, Option, none, some, Text, codes, truthy, is_some, or_else, ◌&&◌, [], if◌then◌else◌, Map,
}
use onekey_balance_kit.Cache.{Reply, returned, threw}
use onekey_balance_kit.Chains.{ethereum}
use onekey_balance_kit.ProviderApi.{NetworkType, mainnet, testnet, BalancesResponse}
use onekey_balance_kit.Providers.{quicknode}

pub record EthereumQuickNodeProvider (N : Type 0) : Type 0 where
  pub mainnet_client : Option Text
  pub testnet_client : Option Text
  pub mainnet_strategy : Option (Strategy N)
  pub testnet_strategy : Option (Strategy N)

abbrev pub create_provider : {N : Type 0} → EthereumQuickNodeProvider N
create_provider = record {
  mainnet_client = none;
  testnet_client = none;
  mainnet_strategy = none;
  testnet_strategy = none;
}

abbrev pub mainnet_url : Text
mainnet_url = codes "QUICKNODE_ETH_MAINNET_URL"

abbrev pub testnet_url : Text
testnet_url = codes "QUICKNODE_ETH_TESTNET_URL"

-- The client of a configured URL.
abbrev pub connected : (Text → Bool) → Option Text → Option Text
connected connects none = none
connected connects (some url) = if truthy url && connects url then some url else none

module _ {N : Type 0} (config : Text → Option Text) (connects : Text → Bool)
    (builds : Strategy N → Bool) where
  unfoldable pub initialize_clients : EthereumQuickNodeProvider N → EthereumQuickNodeProvider N
  initialize_clients s = record s {
    mainnet_client = connected connects (config mainnet_url);
    testnet_client = connected connects (config testnet_url);
  }

  unfoldable pub initialize_quicknode_strategies :
      EthereumQuickNodeProvider N
      → Map (Strategy N)
      → EthereumQuickNodeProvider N × Map (Strategy N)
  initialize_quicknode_strategies s m =
      let created =
        create_quicknode_strategy builds ethereum (or_else (config mainnet_url) [])
          (some (or_else (config testnet_url) [])) m in
      elim s.mainnet_client [
        | none ↦ (s, m)
        | some client ↦ elim created.0 [
          | threw ↦ (s, created.1)
          | returned strategy ↦ (
            record s { mainnet_strategy = some strategy; testnet_strategy = some strategy },
            created.1,
          )
        ]
      ]

  unfoldable pub start_provider :
      EthereumQuickNodeProvider N
      → Map (Strategy N)
      → EthereumQuickNodeProvider N × Map (Strategy N)
  unfolding initialize_clients initialize_quicknode_strategies
  start_provider s m = initialize_quicknode_strategies (initialize_clients s) m

module _ {N : Type 0} where
  unfoldable pub quicknode_is_supported : EthereumQuickNodeProvider N → Bool
  quicknode_is_supported s = is_some s.mainnet_strategy

  abbrev pub strategy_of : NetworkType → EthereumQuickNodeProvider N → Option (Strategy N)
  strategy_of mainnet s = s.mainnet_strategy
  strategy_of testnet s = s.testnet_strategy

unfoldable pub quicknode_base_url : (Text → Option Text) → NetworkType → Text
quicknode_base_url config mainnet = or_else (config mainnet_url) []
quicknode_base_url config testnet = or_else (config testnet_url) []

-- What the adapter of the provider makes of a strategy's answer.
abbrev pub answered :
    {A B : Type 0}
    → Reply A
    → (AdapterKind → A → Reply B)
    → BalanceAdapterFactory
    → Reply B × BalanceAdapterFactory
answered threw convert f = (threw, f)
answered (returned raw) convert f =
    let adapter = for_provider ethereum (some quicknode) f in
    (convert adapter.0.kind raw, adapter.1)

module _ {N X : Type 0} (remote : Remote N X) where
  unfoldable pub quicknode_balances :
      (Text → Bool)
      → Text
      → NetworkType
      → EthereumQuickNodeProvider N
      → BalanceAdapterFactory
      → Reply BalancesResponse × BalanceAdapterFactory
  quicknode_balances is_address address network s f =
      if is_address address
      then elim (strategy_of network s) [
        | none ↦ (threw, f)
        | some strategy ↦
            answered (remote.get_raw_balances strategy address network) to_balances_response f
      ]
      else (threw, f)

  unfoldable pub quicknode_gas_price :
      NetworkType
      → EthereumQuickNodeProvider N
      → BalanceAdapterFactory
      → Reply Text × BalanceAdapterFactory
  quicknode_gas_price network s f = elim (strategy_of network s) [
    | none ↦ (threw, f)
    | some strategy ↦ answered (remote.get_raw_gas_price strategy network) to_gas_price f
  ]

  unfoldable pub quicknode_estimate_gas :
      X
      → NetworkType
      → EthereumQuickNodeProvider N
      → BalanceAdapterFactory
      → Reply RawEstimate × BalanceAdapterFactory
  quicknode_estimate_gas tx network s f = elim (strategy_of network s) [
    | none ↦ (threw, f)
    | some strategy ↦ answered (remote.get_raw_estimate_gas strategy tx network) to_estimate_gas f
  ]
