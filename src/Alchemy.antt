-- ===== src/Alchemy.antt =====
-- providers/implementations/multi-chain/alchemy-provider.facade.ts: the Alchemy provider, which has a
-- strategy for each chain with an API key. The SDK's networks, the configuration and the strategies'
-- remote calls are arguments; `constructs` tells whether the constructor of a strategy returns.
pub mod Calls
pub mod Strategies
pub mod Initialized
pub mod Answers
pub mod Remotes
pub mod Answered
pub mod Tests
use onekey_balance_kit.Adapters.{
  Adapter, AdapterKind, evm_adapter, quicknode_adapter, solana_adapter, BalanceAdapterFactory,
  RawBalances, for_chain, to_balances_response, evm_gas_price, solana_gas_price,
}
use onekey_balance_kit.Base.{
  ℕ, Bool, true, false, ◌||◌, Option, none, some, List, [], ◌∷◌, ◌++◌, Text, codes, truthy,
  text_beq, includes, to_lower, find_if, any, or_else, is_some, if◌then◌else◌, Map, get, set,
}
use onekey_balance_kit.Cache.{Reply, returned, threw}
use onekey_balance_kit.Chains.Alchemy.{Network, get_alchemy_network_for_chain}
use onekey_balance_kit.Chains.{
  ChainName, ethereum, solana, polygon, bsc, ethereum_goerli, ethereum_sepolia, solana_devnet,
  bsc_testnet, polygon_mumbai, value, of_value, is_evm_chain,
}
use onekey_balance_kit.ProviderApi.{NetworkType, mainnet, testnet, BalancesResponse, text_or}

-- The strategies of providers/strategies, by the arguments of their constructors.
pub data Strategy (N : Type 0) : Type 0 where
  evm_alchemy : (api_key : Text) (network : N) → Strategy N
  solana_alchemy : (api_key : Text) (is_devnet : Bool) → Strategy N
  evm_quicknode : (mainnet_url testnet_url : Option Text) → Strategy N

pub record AlchemyProviderFacade (N : Type 0) : Type 0 where
  pub strategies : Map (Strategy N)
  pub default_chain : ChainName
  pub global_api_key : Text

abbrev pub supported_chains : List ChainName
supported_chains =
    ethereum ∷ ethereum_goerli ∷ ethereum_sepolia ∷ polygon ∷ polygon_mumbai ∷ bsc ∷ bsc_testnet
    ∷ solana ∷ solana_devnet ∷ []

abbrev pub env_prefix : ChainName → Text
env_prefix ethereum = codes "ETH"
env_prefix ethereum_goerli = codes "ETH"
env_prefix ethereum_sepolia = codes "ETH"
env_prefix polygon = codes "POLYGON"
env_prefix polygon_mumbai = codes "POLYGON"
env_prefix bsc = codes "BSC"
env_prefix bsc_testnet = codes "BSC"
env_prefix solana = codes "SOLANA"
env_prefix solana_devnet = codes "SOLANA"

abbrev pub is_supported_chain : ChainName → Bool
is_supported_chain chain = any (λ c. text_beq (value c) (value chain)) supported_chains

unfoldable pub is_testnet : ChainName → Bool
is_testnet chain =
    includes (value chain) (codes "_")
    || (includes (value chain) (codes "testnet") || includes (value chain) (codes "devnet"))

-- The default chain of the configuration, if it is one of the supported chains.
abbrev pub configured_chain : Option Text → ChainName
configured_chain none = ethereum
configured_chain (some name) =
    or_else (find_if (λ c. text_beq (value c) name) supported_chains) ethereum

unfoldable pub create_facade : {N : Type 0} → (Text → Option Text) → AlchemyProviderFacade N
create_facade config = record {
  strategies = [];
  default_chain = configured_chain (config (codes "ALCHEMY_DEFAULT_CHAIN"));
  global_api_key =
      text_or (config (codes "blockchain.alchemyApiKey"))
        (text_or (config (codes "ALCHEMY_API_KEY")) []);
}

abbrev pub is_devnet : ChainName → Bool
is_devnet solana_devnet = true
is_devnet _ = false

module _ {N : Type 0} where
  -- The default of a network.
  unfoldable pub default_chain_name : NetworkType → AlchemyProviderFacade N → ChainName
  unfolding is_testnet
  default_chain_name testnet s = or_else (find_if is_testnet supported_chains) ethereum_sepolia
  default_chain_name mainnet s = s.default_chain

  unfoldable pub get_chain_name :
      NetworkType → Option ChainName → AlchemyProviderFacade N → ChainName
  unfolding default_chain_name
  get_chain_name network none s = default_chain_name network s
  get_chain_name network (some chain) s =
      if is_supported_chain chain then chain else default_chain_name network s

  unfoldable pub get_api_key :
      (Text → Option Text) → NetworkType → Option ChainName → AlchemyProviderFacade N → Text
  unfolding get_chain_name is_testnet
  get_api_key config network chain s =
      let resolved = get_chain_name network chain s in
      let fallback = codes "ALCHEMY_API_KEY_" ++ env_prefix resolved in
      let key = fallback ++ (if is_testnet resolved then codes "_TESTNET" else codes "_MAINNET") in
      text_or (config key) (
        text_or (config fallback)
          (text_or (some s.global_api_key) (text_or (config (codes "ALCHEMY_API_KEY")) [])))

  -- The strategy of a chain and a key; the EVM and the Solana chains are all chains.
  abbrev pub strategy_for : Network N → ChainName → Text → Option (Strategy N)
  strategy_for networks chain key =
      if is_evm_chain chain
      then elim (get_alchemy_network_for_chain networks chain) [
        | none ↦ none
        | some network ↦ some (evm_alchemy key network)
      ]
      else some (solana_alchemy key (is_devnet chain))

module _ {N : Type 0} (networks : Network N) (config : Text → Option Text)
    (constructs : Strategy N → Bool) where
  abbrev pub final_api_key : ChainName → AlchemyProviderFacade N → Text
  final_api_key chain s =
      text_or
        (some (get_api_key config (if is_testnet chain then testnet else mainnet) (some chain) s))
        s.global_api_key

  -- One round of the loop of `initializeStrategies`.
  unfoldable pub initialize_strategy : ChainName → AlchemyProviderFacade N → AlchemyProviderFacade N
  initialize_strategy chain s =
      if truthy (final_api_key chain s)
      then elim (strategy_for networks chain (final_api_key chain s)) [
        | none ↦ s
        | some strategy ↦
            if constructs strategy
            then record s { strategies = set (value chain) strategy s.strategies }
            else s
      ]
      else s

  unfoldable pub initialize_strategies :
      List ChainName → AlchemyProviderFacade N → AlchemyProviderFacade N
  unfolding initialize_strategy
  initialize_strategies [] s = s
  initialize_strategies (chain ∷ chains) s =
      initialize_strategies chains (initialize_strategy chain s)

  -- `onModuleInit`.
  unfoldable pub on_module_init : AlchemyProviderFacade N → AlchemyProviderFacade N
  unfolding initialize_strategies
  on_module_init s = initialize_strategies supported_chains s

module _ {N : Type 0} where
  abbrev some_strategy : Map (Strategy N) → Bool
  some_strategy [] = false
  some_strategy (_ ∷ _) = true

  unfoldable pub is_supported : AlchemyProviderFacade N → Bool
  is_supported s = some_strategy s.strategies

  unfoldable pub get_strategy :
      NetworkType → Option ChainName → AlchemyProviderFacade N → Option (Strategy N)
  unfolding get_chain_name
  get_strategy network chain s = get (value (get_chain_name network chain s)) s.strategies

  -- `getBaseUrl`; `name` gives the text of a network.
  unfoldable pub get_base_url :
      Network N → (N → Text) → NetworkType → Option ChainName → AlchemyProviderFacade N → Text
  unfolding get_chain_name
  get_base_url networks name network chain s =
      let found = get_alchemy_network_for_chain networks (get_chain_name network chain s) in
      let host : Text = elim found [
        | none ↦ codes "ethereum-mainnet"
        | some n ↦ to_lower (name n)
      ] in
      codes "https://" ++ (host ++ codes ".g.alchemy.com/v2/")
