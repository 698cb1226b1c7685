-- ===== src/EvmStrategy.antt =====
-- providers/strategies/implementations/evm-alchemy.strategy.ts: the strategy of Alchemy for EVM chains. The
-- client of the SDK is an argument.
pub mod Raw
use onekey_balance_kit.Adapters.{EvmRaw, EvmRawToken, EvmRawNft, metadata}
use onekey_balance_kit.Alchemy.Calls.{RawGasPrice, evm_fees}
use onekey_balance_kit.Base.{ℕ, Option, none, some, List, [], ◌∷◌, Text, codes, show}
use onekey_balance_kit.Cache.{Reply, returned, threw}
use onekey_balance_kit.Portfolio.{TokenMetadata}
use onekey_balance_kit.ProviderApi.{text_or, then_get}

pub record SdkToken : Type 0 where
  pub contract_address : Text
  pub token_balance : Option Text

-- What the source calls of the SDK; `get_fee_data` gives the gas price and the highest fee.
pub record SdkClient (X : Type 0) : Type 0 where
  pub get_balance : Text → Reply ℕ
  pub get_token_balances : Text → Reply (List SdkToken)
  pub get_token_metadata : Text → Reply (Option TokenMetadata)
  pub get_nfts_for_owner : Text → Reply (List EvmRawNft)
  pub get_fee_data : Reply (Option ℕ × Option ℕ)
  pub estimate : X → Reply ℕ

abbrev pub evm_raw_token : SdkToken → Option TokenMetadata → EvmRawToken
evm_raw_token t m = record {
  contract_address = t.contract_address;
  token_balance = some (text_or t.token_balance (codes "0"));
  token_metadata = some (
      metadata (then_get m (λ x. x.symbol)) (then_get m (λ x. x.decimals))
        (then_get m (λ x. x.name)) 18);
}

abbrev pub shown : Option ℕ → Option Text
shown none = none
shown (some n) = some (show n)

module _ {X : Type 0} (c : SdkClient X) where
  -- `Promise.all` of the metadata, with the tokens.
  unfoldable pub with_metadata : List SdkToken → Reply (List EvmRawToken)
  with_metadata [] = returned []
  with_metadata (t ∷ ts) =
      let rest = with_metadata ts in
      elim (c.get_token_metadata t.contract_address) [
        | threw ↦ threw
        | returned m ↦ elim rest [
          | threw ↦ threw
          | returned tokens ↦ returned (evm_raw_token t m ∷ tokens)
        ]
      ]

  unfoldable pub evm_raw_balances : Text → Reply EvmRaw
  unfolding with_metadata
  evm_raw_balances address = elim (c.get_balance address) [
    | threw ↦ threw
    | returned wei ↦ elim (c.get_token_balances address) [
      | threw ↦ threw
      | returned held ↦ elim (with_metadata held) [
        | threw ↦ threw
        | returned tokens ↦ elim (c.get_nfts_for_owner address) [
          | threw ↦ threw
          | returned nfts ↦
              returned
                (record { native_balance = show wei; token_balances = tokens; owned_nfts = nfts })
        ]
      ]
    ]
  ]

  unfoldable pub evm_raw_gas_price : Reply RawGasPrice
  evm_raw_gas_price = elim c.get_fee_data [
    | threw ↦ threw
    | returned (price, fee) ↦ returned (evm_fees (shown price) (shown fee))
  ]

  unfoldable pub evm_raw_estimate : X → Reply Text
  evm_raw_estimate tx = elim (c.estimate tx) [ threw ↦ threw | returned n ↦ returned (show n) ]
