-- ===== src/Db.antt =====
-- core/db/db.service.ts: the snapshots of portfolios and their history. Mongoose is not under src: the
-- models are a `Models`, whose calls return or throw. A filter object is the list of its conditions.
-- `new Date()` is a time in milliseconds.
pub mod Filters
pub mod Saved
pub mod Expired
pub mod Records
pub mod Store
pub mod Tests
use onekey_balance_kit.Base.{
  ℕ, ◌+◌, ◌*◌, Bool, Option, none, some, List, [], ◌∷◌, ◌++◌, Text, nat_beq, if◌then◌else◌, or_else,
}
use onekey_balance_kit.Cache.{Reply, returned, threw}
use onekey_balance_kit.Chains.{ChainName}
use onekey_balance_kit.Db.Filters.{
  Condition, chain_is, chain_id_is, address_is, provider_is, no_expiry_or_after,
}
use onekey_balance_kit.Portfolio.{NativeBalance, Token, PortfolioData, PortfolioSnapshot}
use onekey_balance_kit.Providers.{ProviderType}

-- `{ chain, ...data, ...provider }`.
pub record SnapshotUpdate (P : Type 0) : Type 0 where
  pub chain : ChainName
  pub transformed_data : PortfolioData P
  pub provider : Option ProviderType

pub record PortfolioHistory (P : Type 0) : Type 0 where
  pub updated_at : ℕ
  pub meta_chain_id : ℕ
  pub meta_address : Text
  pub meta_provider : Option ProviderType
  pub chain : ChainName
  pub native : NativeBalance P
  pub fungibles : List (Token P)
  pub nfts : List P
  pub block_number : ℕ
  pub schema_ver : ℕ

-- A write of `updateMany`.
pub data Change : Type 0 where
  set_expires_at : ℕ → Change
  set_monitored unset_monitored : Change

-- The models of Mongoose: `find`, `findOne`, `findOneAndUpdate` with an upsert, `updateMany` with the
-- number of documents that it changed, and `create` on the history.
pub record Models (P D : Type 0) : Type 0 where
  pub find : List Condition → D → Reply (List (PortfolioSnapshot P))
  pub find_one : List Condition → D → Reply (Option (PortfolioSnapshot P))
  pub find_one_and_update :
      List Condition → SnapshotUpdate P → D → Reply (Option (PortfolioSnapshot P) × D)
  pub update_many : List Condition → Change → D → Reply (ℕ × D)
  pub create_history : PortfolioHistory P → D → Reply D

-- `n || m` on a number that may be missing.
abbrev pub or_number : Option ℕ → ℕ → ℕ
or_number none m = m
or_number (some n) m = if nat_beq n 0 then m else n

-- `...(provider ? { provider } : {})` in a filter.
abbrev pub given_provider : Option ProviderType → List Condition
given_provider none = []
given_provider (some p) = provider_is p ∷ []

abbrev pub snapshot_filter : ℕ → Text → Option ProviderType → List Condition
snapshot_filter chain_id address provider =
    chain_id_is chain_id ∷ address_is address ∷ given_provider provider

abbrev pub live_filter : ℕ → Text → Option ProviderType → ℕ → List Condition
live_filter chain_id address provider now =
    snapshot_filter chain_id address provider ++ no_expiry_or_after now ∷ []

module _ {P : Type 0} where
  -- The part of `transformPortfolioData` behind its early return.
  unfoldable pub transformed : PortfolioData P → PortfolioData P
  transformed input = record input {
    native = elim input.native [ some n ↦ some n | none ↦ input.native_balance ];
    native_balance = elim input.native [ some n ↦ input.native_balance | none ↦ none ];
    block_number = some (or_number input.block_number 0);
    fungibles = elim input.fungibles [ some xs ↦ some xs | none ↦ input.tokens ];
    tokens = elim input.fungibles [ some xs ↦ input.tokens | none ↦ none ];
  }

  unfoldable pub transform_portfolio_data : PortfolioData P → PortfolioData P
  unfolding transformed
  transform_portfolio_data input = elim input.native [
    | none ↦ transformed input
    | some n ↦ elim input.native_balance [ none ↦ input | some m ↦ transformed input ]
  ]

  abbrev pub with_expiry : Option ℕ → ℕ → PortfolioData P → PortfolioData P
  with_expiry none now input = input
  with_expiry (some ttl) now input = record input { expires_at = some (now + ttl * 1000) }

  -- The object that the history receives, where the snapshot has a native balance.
  unfoldable pub history_data :
      ChainName
      → ℕ
      → Text
      → Option ProviderType
      → ℕ
      → PortfolioSnapshot P
      → Option (PortfolioHistory P)
  history_data chain chain_id address provider now snapshot = elim snapshot.native [
    | none ↦ none
    | some native ↦ some (record {
      updated_at = now;
      meta_chain_id = chain_id;
      meta_address = address;
      meta_provider = provider;
      chain = chain;
      native = native;
      fungibles = or_else snapshot.fungibles [];
      nfts = or_else snapshot.nfts [];
      block_number = or_number snapshot.block_number 0;
      schema_ver = or_number snapshot.schema_ver 1;
    })
  ]

module _ {P D : Type 0} (db : Models P D) where
  unfoldable pub get_portfolio_snapshot :
      ℕ → Text → Option ProviderType → ℕ → D → Reply (Option (PortfolioSnapshot P))
  get_portfolio_snapshot chain_id address provider now d =
      db.find_one (live_filter chain_id address provider now) d

  -- The history record; its failure is only logged.
  unfoldable pub add_history : Option (PortfolioHistory P) → D → D
  add_history none d = d
  add_history (some h) d = elim (db.create_history h d) [ threw ↦ d | returned d' ↦ d' ]

  -- `savePortfolioSnapshot`, begun at `now`, with the history record written at `later`.
  unfoldable pub save_portfolio_snapshot :
      ChainName
      → ℕ
      → Text
      → PortfolioData P
      → Option ProviderType
      → Option ℕ
      → (now later : ℕ) → D
      → Reply (PortfolioSnapshot P) × D
  unfolding add_history
  save_portfolio_snapshot chain chain_id address input provider ttl_seconds now later d =
      let update : SnapshotUpdate P = record {
        chain = chain;
        transformed_data = with_expiry ttl_seconds now (transform_portfolio_data input);
        provider = provider;
      } in
      elim (db.find_one_and_update (snapshot_filter chain_id address provider) update d) [
        | threw ↦ (threw, d)
        | returned (none, d') ↦ (threw, d')
        | returned (some snapshot, d') ↦ (
          returned snapshot,
          add_history (history_data chain chain_id address provider later snapshot) d',
        )
      ]

  -- `invalidateAddressSnapshot`; an error of the database is thrown on.
  unfoldable pub invalidate_address_snapshot :
      ChainName → ℕ → Text → Option ProviderType → ℕ → D → Reply (ℕ × D)
  invalidate_address_snapshot chain chain_id address provider now d =
      db.update_many (chain_is chain ∷ snapshot_filter chain_id address provider)
        (set_expires_at now) d
