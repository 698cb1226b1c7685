-- ===== src/ProviderApi.antt =====
-- providers/interfaces/blockchain-provider.interface.ts: what a provider of balances is asked and what it
-- answers.
pub use onekey_balance_kit.Base.{text_or, then_get}
use onekey_balance_kit.Base.{Bool, Option, List, Text}
use onekey_balance_kit.Cache.{Reply}
use onekey_balance_kit.Chains.{ChainName}
use onekey_balance_kit.Portfolio.{TokenMetadata}

pub data NetworkType : Type 0 where
  mainnet testnet : NetworkType

pub record TokenBalance : Type 0 where
  pub mint : Text
  pub token_metadata : Option TokenMetadata
  pub balance : Text

-- `collection_name` is `collection?.name`.
pub record NftMetadata : Type 0 where
  pub collection_name : Option Text
  pub name : Option Text
  pub image : Option Text

pub record NftBalance : Type 0 where
  pub mint : Text
  pub token_id : Option Text
  pub token_metadata : Option NftMetadata

pub record BalancesResponse : Type 0 where
  pub native_balance : Text
  pub tokens : List TokenBalance
  pub nfts : List NftBalance
  pub is_success : Option Bool
  pub error_message : Option Text

-- The methods of a provider that a chain service calls.
pub record ProviderApi (I : Type 0) : Type 0 where
  pub is_supported : I → Bool
  pub get_balances : I → Text → NetworkType → ChainName → Reply BalancesResponse
