-- ===== src/Alchemy/Calls.antt =====
-- The calls of providers/implementations/multi-chain/alchemy-provider.facade.ts that ask a strategy and
-- hand its answer to the adapter of the chain. `Remote` is what the strategies do.
use onekey_balance_kit.Adapters.{
  AdapterKind, solana_adapter, BalanceAdapterFactory, RawBalances, for_chain, to_balances_response,
  evm_gas_price, solana_gas_price,
}
use onekey_balance_kit.Alchemy.{Strategy, AlchemyProviderFacade, get_chain_name, get_strategy}
use onekey_balance_kit.Base.{ℕ, Option, none, some, Text, show}
use onekey_balance_kit.Cache.{Reply, returned, threw}
use onekey_balance_kit.Chains.{ChainName}
use onekey_balance_kit.ProviderApi.{NetworkType, BalancesResponse}

pub data RawGasPrice : Type 0 where
  evm_fees : (gas_price max_fee_per_gas : Option Text) → RawGasPrice
  lamports : (per_signature : ℕ) → RawGasPrice

-- An estimate is a text for the EVM chains and `lamportsUsed` for Solana.
pub data RawEstimate : Type 0 where
  estimate_text : Text → RawEstimate
  lamports_used : ℕ → RawEstimate

pub record Remote (N X : Type 0) : Type 0 where
  pub get_raw_balances : Strategy N → Text → NetworkType → Reply RawBalances
  pub get_raw_gas_price : Strategy N → NetworkType → Reply RawGasPrice
  pub get_raw_estimate_gas : Strategy N → X → NetworkType → Reply RawEstimate

-- `toGasPrice` and `toEstimateGas` of an adapter. On another provider's answer the Solana adapter reads
-- a property of undefined and throws; the EVM adapters find no price, and hand an estimate on as it is.
unfoldable pub to_gas_price : AdapterKind → RawGasPrice → Reply Text
to_gas_price solana_adapter (lamports n) = returned (solana_gas_price n)
to_gas_price solana_adapter (evm_fees a b) = threw
to_gas_price _ (evm_fees a b) = returned (evm_gas_price a b)
to_gas_price _ (lamports n) = returned (evm_gas_price none none)

unfoldable pub to_estimate_gas : AdapterKind → RawEstimate → Reply RawEstimate
to_estimate_gas solana_adapter (lamports_used n) = returned (estimate_text (show n))
to_estimate_gas solana_adapter (estimate_text t) = threw
to_estimate_gas _ estimate = returned estimate

-- What is made of a strategy's answer.
abbrev pub answer :
    {A B : Type 0}
    → Reply A
    → (AdapterKind → A → Reply B)
    → ChainName
    → BalanceAdapterFactory
    → Reply B × BalanceAdapterFactory
answer threw convert chain f = (threw, f)
answer (returned raw) convert chain f =
    let adapter = for_chain chain f in (convert adapter.0.kind raw, adapter.1)

module _ {N X : Type 0} (remote : Remote N X) where
  unfoldable pub get_balances :
      Text
      → NetworkType
      → Option ChainName
      → AlchemyProviderFacade N
      → BalanceAdapterFactory
      → Reply BalancesResponse × BalanceAdapterFactory
  get_balances address network chain s f =
      let resolved = get_chain_name network chain s in
      elim (get_strategy network (some resolved) s) [
        | none ↦ (threw, f)
        | some strategy ↦
            answer (remote.get_raw_balances strategy address network) to_balances_response resolved
              f
      ]

  unfoldable pub get_gas_price :
      NetworkType
      → Option ChainName
      → AlchemyProviderFacade N
      → BalanceAdapterFactory
      → Reply Text × BalanceAdapterFactory
  get_gas_price network chain s f =
      let resolved = get_chain_name network chain s in
      elim (get_strategy network (some resolved) s) [
        | none ↦ (threw, f)
        | some strategy ↦ answer (remote.get_raw_gas_price strategy network) to_gas_price resolved f
      ]

  unfoldable pub estimate_gas :
      X
      → NetworkType
      → Option ChainName
      → AlchemyProviderFacade N
      → BalanceAdapterFactory
      → Reply RawEstimate × BalanceAdapterFactory
  estimate_gas tx network chain s f =
      let resolved = get_chain_name network chain s in
      elim (get_strategy network (some resolved) s) [
        | none ↦ (threw, f)
        | some strategy ↦
            answer (remote.get_raw_estimate_gas strategy tx network) to_estimate_gas resolved f
      ]
