-- ===== src/CacheMongo/RoundTrip.antt =====
-- Portfolio data that core/db saves and core/cache reads back.
use onekey_balance_kit.Base.{ℕ, ◌≡◌, refl, Option, none, some, List, Text, map}
use onekey_balance_kit.Cache.{returned}
use onekey_balance_kit.CacheMongo.{listed, with_decimals, response_of}
use onekey_balance_kit.Chains.{ChainName}
use onekey_balance_kit.Db.Saved.{IsMongo, save_portfolio_snapshot-IsWritten}
use onekey_balance_kit.Db.{Models, transformed, transform_portfolio_data, save_portfolio_snapshot}
use onekey_balance_kit.Portfolio.{BalanceResponse, PortfolioSnapshot, as_data}
use onekey_balance_kit.Providers.{ProviderType}

module _ {P : Type 0} where
  -- An answer as it is read back.
  abbrev pub read_back : ℕ → BalanceResponse P → BalanceResponse P
  read_back now r = record r {
    native_balance = with_decimals r.native_balance;
    tokens = map listed r.tokens;
    updated_at = now;
  }

  -- An answer of the balance service that was saved is read back as it was, but for its time, for
  -- decimals of zero, which are read as 18, and for the tokens: these lose their mint and their
  -- metadata.
  pub response_of-save_portfolio_snapshot :
      {D : Type 0} (db : Models P D) (documents : D → List (PortfolioSnapshot P))
      (chain : ChainName) (chain_id : ℕ) (address : Text) (r : BalanceResponse P)
      (provider : Option ProviderType) (ttl : Option ℕ) (now written later : ℕ) (d : D)
      (x : PortfolioSnapshot P)
      → IsMongo db documents
      → (save_portfolio_snapshot db chain chain_id address (as_data r) provider ttl now written d).0
        ≡ returned x
      → response_of later x ≡ returned (read_back later r)
  unfolding response_of transform_portfolio_data transformed
  response_of-save_portfolio_snapshot db documents chain chain_id address r provider none now
        written later d x laws saved =
      let w =
        save_portfolio_snapshot-IsWritten db documents chain chain_id address (as_data r) provider
          none now written d x laws saved in
      rw w.set_fields refl
  response_of-save_portfolio_snapshot db documents chain chain_id address r provider (some t) now
        written later d x laws saved =
      let w =
        save_portfolio_snapshot-IsWritten db documents chain chain_id address (as_data r) provider
          (some t) now written d x laws saved in
      rw w.set_fields refl
