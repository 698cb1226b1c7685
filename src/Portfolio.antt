-- ===== src/Portfolio.antt =====
-- The shapes of portfolio data that core/, balances/ and chains/ hand to each other: the answer of the
-- balance service, the object that the listeners receive (every key may be missing) and the documents
-- of core/db/schemas/portfolio-snapshot.schema.ts. `P` is the type of what the source only copies:
-- prices and NFTs.
use onekey_balance_kit.Base.{ℕ, Option, none, some, List, Text, Bool}
use onekey_balance_kit.Chains.{ChainName}
use onekey_balance_kit.Providers.{ProviderType}

pub record NativeBalance (P : Type 0) : Type 0 where
  pub symbol : Text
  pub balance : Text
  pub decimals : Option ℕ
  pub usd : Option P

pub record TokenMetadata : Type 0 where
  pub symbol : Option Text
  pub name : Option Text
  pub decimals : Option ℕ

-- A token with the keys of every type that stands in a list of tokens.
pub record Token (P : Type 0) : Type 0 where
  pub address : Option Text
  pub mint : Option Text
  pub symbol : Option Text
  pub name : Option Text
  pub balance : Text
  pub decimals : Option ℕ
  pub usd : Option P
  pub logo : Option Text
  pub token_metadata : Option TokenMetadata

pub record BalanceResponse (P : Type 0) : Type 0 where
  pub native_balance : NativeBalance P
  pub tokens : List (Token P)
  pub nfts : List P
  pub updated_at : ℕ

pub record PortfolioData (P : Type 0) : Type 0 where
  pub native : Option (NativeBalance P)
  pub native_balance : Option (NativeBalance P)
  pub fungibles : Option (List (Token P))
  pub tokens : Option (List (Token P))
  pub nfts : Option (List P)
  pub block_number : Option ℕ
  pub schema_ver : Option ℕ
  pub updated_at : Option ℕ
  pub expires_at : Option ℕ

pub record PortfolioSnapshot (P : Type 0) : Type 0 where
  pub chain : ChainName
  pub chain_id : ℕ
  pub address : Text
  pub provider : Option ProviderType
  pub native : Option (NativeBalance P)
  pub fungibles : Option (List (Token P))
  pub nfts : Option (List P)
  pub block_number : Option ℕ
  pub schema_ver : Option ℕ
  pub webhook_monitored : Bool
  pub expires_at : Option ℕ

module _ {P : Type 0} where
  -- The answer of the balance service, as the object that the events carry.
  abbrev pub as_data : BalanceResponse P → PortfolioData P
  as_data r = record {
    native = none;
    native_balance = some r.native_balance;
    fungibles = none;
    tokens = some r.tokens;
    nfts = some r.nfts;
    block_number = none;
    schema_ver = none;
    updated_at = some r.updated_at;
    expires_at = none;
  }
