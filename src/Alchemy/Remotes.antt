-- ===== src/Alchemy/Remotes.antt =====
-- What the strategies of src/providers/strategies/implementations answer, as the providers see them. A
-- strategy has the client that its constructor makes of its parameters; clients are arguments.
use onekey_balance_kit.Adapters.{RawBalances, evm_raw, solana_raw, quicknode_raw}
use onekey_balance_kit.Alchemy.Answers.{AnswersInForm}
use onekey_balance_kit.Alchemy.Calls.{
  Remote, RawGasPrice, lamports, evm_fees, RawEstimate, estimate_text, lamports_used,
}
use onekey_balance_kit.Alchemy.{Strategy, evm_alchemy, solana_alchemy, evm_quicknode}
use onekey_balance_kit.Base.{◌≡◌, refl, Bool, Option, none, some, Text, arith}
use onekey_balance_kit.Cache.{Reply, returned, threw}
use onekey_balance_kit.EvmStrategy.{
  SdkClient, evm_raw_balances, evm_raw_gas_price, evm_raw_estimate,
}
use onekey_balance_kit.ProviderApi.{NetworkType}
use onekey_balance_kit.QuickNode.Estimate.{TransactionRequest, get_raw_estimate_gas}
use onekey_balance_kit.QuickNode.{Core, GasPrices, get_raw_balances, get_raw_gas_price}
use onekey_balance_kit.SolanaStrategy.{
  SolanaRpc, solana_raw_balances, solana_raw_gas_price, solana_raw_estimate,
}

-- The clients: of the SDK for a key and a network, of Solana for a key and the devnet, and of QuickNode
-- for a URL. `message` is the compiled message of a transaction.
pub record Clients (N : Type 0) : Type 0 where
  pub sdk : Text → N → SdkClient TransactionRequest
  pub solana_rpc : Text → Bool → SolanaRpc
  pub core : Text → Core
  pub message : TransactionRequest → Text

abbrev pub reply_map : {A B : Type 0} → (A → B) → Reply A → Reply B
reply_map f threw = threw
reply_map f (returned a) = returned (f a)

abbrev pub core_at : {N : Type 0} → Clients N → Option Text → Option Core
core_at clients none = none
core_at clients (some url) = some (clients.core url)

abbrev pub fees_of : GasPrices → RawGasPrice
fees_of g = evm_fees (some g.gas_price) (some g.max_fee_per_gas)

module _ {N : Type 0} (clients : Clients N) where
  abbrev pub ask_balances : Strategy N → Text → NetworkType → Reply RawBalances
  ask_balances (evm_alchemy key network) address on =
      reply_map evm_raw (evm_raw_balances (clients.sdk key network) address)
  ask_balances (solana_alchemy key is_devnet) address on =
      reply_map solana_raw (solana_raw_balances (clients.solana_rpc key is_devnet) address)
  ask_balances (evm_quicknode main test) address on =
      reply_map quicknode_raw
        (get_raw_balances (core_at clients main) (core_at clients test) address on)

  abbrev pub ask_gas_price : Strategy N → NetworkType → Reply RawGasPrice
  ask_gas_price (evm_alchemy key network) on = evm_raw_gas_price (clients.sdk key network)
  ask_gas_price (solana_alchemy key is_devnet) on =
      reply_map lamports (solana_raw_gas_price (clients.solana_rpc key is_devnet))
  ask_gas_price (evm_quicknode main test) on =
      reply_map fees_of (get_raw_gas_price (core_at clients main) (core_at clients test) on)

  abbrev pub ask_estimate : Strategy N → TransactionRequest → NetworkType → Reply RawEstimate
  ask_estimate (evm_alchemy key network) tx on =
      reply_map estimate_text (evm_raw_estimate (clients.sdk key network) tx)
  ask_estimate (solana_alchemy key is_devnet) tx on =
      reply_map lamports_used
        (solana_raw_estimate (clients.solana_rpc key is_devnet) (clients.message tx))
  ask_estimate (evm_quicknode main test) tx on =
      reply_map estimate_text
        (get_raw_estimate_gas (core_at clients main) (core_at clients test) tx on)

  abbrev pub remote_of : Remote N TransactionRequest
  remote_of = record {
    get_raw_balances = ask_balances;
    get_raw_gas_price = ask_gas_price;
    get_raw_estimate_gas = ask_estimate;
  }

  reply_map-returned :
      {A B : Type 0} (f : A → B) (r : Reply A) (b : B)
      → reply_map f r ≡ returned b
      → (a : A) × (f a ≡ b)
  reply_map-returned f threw b e = absurd (ground (arith, e))
  reply_map-returned f (returned a) b e = (a, ground (arith, e))

  -- Each strategy answers in the form of its own provider.
  pub remote_of-in_form : AnswersInForm remote_of
  remote_of-in_form (evm_alchemy key network) address on raw e =
      let (a, is) =
        reply_map-returned evm_raw (evm_raw_balances (clients.sdk key network) address) raw e in
      rw (← is) refl
  remote_of-in_form (solana_alchemy key is_devnet) address on raw e =
      let (a, is) =
        reply_map-returned solana_raw
          (solana_raw_balances (clients.solana_rpc key is_devnet) address) raw e in
      rw (← is) refl
  remote_of-in_form (evm_quicknode main test) address on raw e =
      let (a, is) =
        reply_map-returned quicknode_raw
          (get_raw_balances (core_at clients main) (core_at clients test) address on) raw e in
      rw (← is) refl
