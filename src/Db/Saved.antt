-- ===== src/Db/Saved.antt =====
-- `transformPortfolioData` and `savePortfolioSnapshot` of core/db/db.service.ts.
use onekey_balance_kit.Base.{
  ℕ, ◌+◌, ◌*◌, ◌<◌, Bool, true, false, ◌≡◌, ◌≢◌, refl, inl, inr, ap, Option, none, some, List, Text,
  any, arith, map, if◌then◌else◌, is_some, text_beq, text_beq_refl, ◌&&◌,
}
use onekey_balance_kit.Cache.{returned, or_next, Reply-cases}
use onekey_balance_kit.Chains.{ChainName}
use onekey_balance_kit.Db.Filters.{Condition, matches}
use onekey_balance_kit.Db.{
  SnapshotUpdate, Change, set_expires_at, set_monitored, unset_monitored, Models, transformed,
  transform_portfolio_data, with_expiry, snapshot_filter, live_filter, history_data,
  get_portfolio_snapshot, add_history, save_portfolio_snapshot,
}
use onekey_balance_kit.Portfolio.{PortfolioData, PortfolioSnapshot}
use onekey_balance_kit.Providers.{ProviderType, provider_value}

module _ {P : Type 0} where
  -- Data that was transformed is transformed no further, so the listener and the database service can
  -- both transform it.
  pub transform_portfolio_data-transform_portfolio_data :
      (input : PortfolioData P)
      → transform_portfolio_data (transform_portfolio_data input) ≡ transform_portfolio_data input
  unfolding transform_portfolio_data transformed
  transform_portfolio_data-transform_portfolio_data input = ground arith

  -- What an upsert leaves of a document: the fields that the update has are set, those that are not in
  -- the schema are dropped.
  abbrev pub applied : SnapshotUpdate P → PortfolioSnapshot P → PortfolioSnapshot P
  applied u x = record x {
    chain = u.chain;
    provider = or_next u.provider x.provider;
    native = or_next u.transformed_data.native x.native;
    fungibles = or_next u.transformed_data.fungibles x.fungibles;
    nfts = or_next u.transformed_data.nfts x.nfts;
    block_number = or_next u.transformed_data.block_number x.block_number;
    schema_ver = or_next u.transformed_data.schema_ver x.schema_ver;
    expires_at = or_next u.transformed_data.expires_at x.expires_at;
  }

  abbrev pub changed : List Condition → Change → PortfolioSnapshot P → PortfolioSnapshot P
  changed f (set_expires_at t) x = if matches f x then record x { expires_at = some t } else x
  changed f set_monitored x = if matches f x then record x { webhook_monitored = true } else x
  changed f unset_monitored x = if matches f x then record x { webhook_monitored = false } else x

-- What MongoDB documents of these calls, where `documents` are the snapshots in a state of the database.
-- An upsert changes a document that matches the filter, or one that it makes of the filter.
pub record IsMongo {P D : Type 0} (db : Models P D) (documents : D → List (PortfolioSnapshot P))
    : Type 0 where
  pub find_one-any :
      (f : List Condition) (d : D) (o : Option (PortfolioSnapshot P))
      → db.find_one f d ≡ returned o
      → is_some o ≡ any (matches f) (documents d)
  pub find-any :
      (f : List Condition) (d : D) (xs : List (PortfolioSnapshot P))
      (test : PortfolioSnapshot P → Bool)
      → db.find f d ≡ returned xs
      → any test xs ≡ any (λ x. matches f x && test x) (documents d)
  pub updated :
      (f : List Condition) (c : Change) (d d' : D) (n : ℕ)
      → db.update_many f c d ≡ returned (n, d')
      → documents d' ≡ map (changed f c) (documents d)
  pub upserted :
      (f : List Condition) (u : SnapshotUpdate P) (d d' : D) (x : PortfolioSnapshot P)
      → db.find_one_and_update f u d ≡ returned (some x, d')
      → (old : PortfolioSnapshot P) × (matches f old ≡ true)
        × (x ≡ applied u old)
        × ((test : PortfolioSnapshot P → Bool) → test x ≡ true → any test (documents d') ≡ true)
  pub history-documents :
      (h : _) (d d' : D) → db.create_history h d ≡ returned d' → documents d' ≡ documents d

module _ {P : Type 0} where
  -- An update leaves the document one of the filter that it was found with.
  applied-filtered :
      (chain : ChainName) (chain_id : ℕ) (address : Text) (provider : Option ProviderType)
      (input : PortfolioData P) (x : PortfolioSnapshot P)
      → matches (snapshot_filter chain_id address provider) x ≡ true
      → let u : SnapshotUpdate P = record {
        chain = chain;
        transformed_data = input;
        provider = provider;
      } in
        matches (snapshot_filter chain_id address provider) (applied u x) ≡ true
  applied-filtered chain chain_id address none input x h = ground arith
  applied-filtered chain chain_id address (some p) input x h =
      ground (arith, text_beq_refl (provider_value p))

  address-matched :
      (chain_id : ℕ) (address : Text) (provider : Option ProviderType) (x : PortfolioSnapshot P)
      → matches (snapshot_filter chain_id address provider) x ≡ true
      → text_beq address x.address ≡ true
  address-matched chain_id address none x h = ground arith
  address-matched chain_id address (some p) x h = ground arith

  filtered-live :
      (chain_id : ℕ) (address : Text) (provider : Option ProviderType) (later e : ℕ)
      (x : PortfolioSnapshot P)
      → matches (snapshot_filter chain_id address provider) x ≡ true
      → x.expires_at ≡ some e
      → later < e
      → matches (live_filter chain_id address provider later) x ≡ true
  filtered-live chain_id address none later e x h until soon = ground (arith, until)
  filtered-live chain_id address (some p) later e x h until soon = ground (arith, until)

module _ {P D : Type 0} (db : Models P D) (documents : D → List (PortfolioSnapshot P)) where
  add_history-documents :
      (h : _) (d : D) → IsMongo db documents → documents (add_history db h d) ≡ documents d
  unfolding add_history
  add_history-documents none d laws = refl
  add_history-documents (some h) d laws = elim (Reply-cases (db.create_history h d)) [
    | inl failed ↦ rw (failed, add_history) refl
    | inr (d', made) ↦ rw (made, add_history) (laws.history-documents h d d' made)
  ]

  -- The update that a save writes.
  abbrev pub written_update :
      ChainName → PortfolioData P → Option ProviderType → Option ℕ → ℕ → SnapshotUpdate P
  written_update chain input provider ttl now = record {
    chain = chain;
    transformed_data = with_expiry ttl now (transform_portfolio_data input);
    provider = provider;
  }

  -- What a save leaves of the document `old` that it found or made, when it returns `x`.
  pub record IsWritten (f : List Condition) (u : SnapshotUpdate P) (x : PortfolioSnapshot P) (d : D)
      : Type 0 where
    pub old : PortfolioSnapshot P
    pub matching : matches f old ≡ true
    pub set_fields : x ≡ applied u old
    pub present :
        (test : PortfolioSnapshot P → Bool) → test x ≡ true → any test (documents d) ≡ true

  pub save_portfolio_snapshot-IsWritten :
      (chain : ChainName) (chain_id : ℕ) (address : Text) (input : PortfolioData P)
      (provider : Option ProviderType) (ttl : Option ℕ) (now written : ℕ) (d : D)
      (x : PortfolioSnapshot P)
      → IsMongo db documents
      → let r =
          save_portfolio_snapshot db chain chain_id address input provider ttl now written d in
        r.0 ≡ returned x
        → IsWritten
            (snapshot_filter chain_id address provider)
            (written_update chain input provider ttl now)
            x
            r.1
  unfolding save_portfolio_snapshot
  save_portfolio_snapshot-IsWritten chain chain_id address input provider ttl now written d x laws
        saved =
      let u = written_update chain input provider ttl now in
      let f = snapshot_filter chain_id address provider in
      elim (Reply-cases (db.find_one_and_update f u d)) [
        | inl failed ↦ absurd (ground (arith, saved, failed))
        | inr ((none, d'), done) ↦ absurd (ground (arith, saved, done))
        | inr ((some y, d'), done) ↦
            let (old, matching, e, present) = laws.upserted f u d d' y done in
            let same : y ≡ x = ground (arith, saved, done) in
            let kept =
              add_history-documents (history_data chain chain_id address provider written y) d'
                laws in
            rw (done, save_portfolio_snapshot)
              (rw (← same) (record {
                old = old;
                matching = matching;
                set_fields = e;
                present = λ test h. rw kept (present test h);
              }))
      ]

  -- What a save with a lifetime leaves: the document that it returns.
  pub record IsSaved (chain : ChainName) (chain_id : ℕ) (address : Text)
      (provider : Option ProviderType) (t now : ℕ) (x : PortfolioSnapshot P) (d : D) : Type 0 where
    pub of_chain : x.chain ≡ chain
    pub of_address : text_beq address x.address ≡ true
    pub until : x.expires_at ≡ some (now + t * 1000)
    pub filtered : matches (snapshot_filter chain_id address provider) x ≡ true
    pub present :
        (test : PortfolioSnapshot P → Bool) → test x ≡ true → any test (documents d) ≡ true

  pub save_portfolio_snapshot-IsSaved :
      (chain : ChainName) (chain_id : ℕ) (address : Text) (input : PortfolioData P)
      (provider : Option ProviderType) (t now written : ℕ) (d : D) (x : PortfolioSnapshot P)
      → IsMongo db documents
      → let r =
          save_portfolio_snapshot db chain chain_id address input provider (some t) now written d in
        r.0 ≡ returned x → IsSaved chain chain_id address provider t now x r.1
  save_portfolio_snapshot-IsSaved chain chain_id address input provider t now written d x laws
        saved =
      let w =
        save_portfolio_snapshot-IsWritten chain chain_id address input provider (some t) now written
          d x laws saved in
      let u = written_update chain input provider (some t) now in
      record {
        of_chain = ap (λ z. z.chain) w.set_fields;
        of_address = rw w.set_fields (address-matched chain_id address provider w.old w.matching);
        until = ap (λ z. z.expires_at) w.set_fields;
        filtered =
            rw w.set_fields (
              applied-filtered chain chain_id address provider u.transformed_data w.old w.matching);
        present = w.present;
      }

  -- A snapshot that was saved with a lifetime is one of the chain that it was saved for and expires when
  -- the lifetime is over. Until then the snapshot of its chain ID, address and provider, looked for
  -- without an error of the database, is found.
  pub save_portfolio_snapshot-saved :
      (chain : ChainName) (chain_id : ℕ) (address : Text) (input : PortfolioData P)
      (provider : Option ProviderType) (t now written later : ℕ) (d : D) (x : PortfolioSnapshot P)
      → IsMongo db documents
      → let r =
          save_portfolio_snapshot db chain chain_id address input provider (some t) now written d in
        r.0 ≡ returned x
        → later < now + t * 1000
        → (x.chain ≡ chain)
          × (x.expires_at ≡ some (now + t * 1000))
          × (get_portfolio_snapshot db chain_id address provider later r.1 ≢ returned none)
  unfolding get_portfolio_snapshot
  save_portfolio_snapshot-saved chain chain_id address input provider t now written later d x laws
        saved soon =
      let s =
        save_portfolio_snapshot-IsSaved chain chain_id address input provider t now written d x laws
          saved in
      (
        s.of_chain,
        s.until,
        λ missed.
            let live =
              filtered-live chain_id address provider later (now + t * 1000) x s.filtered s.until
                soon in
            let none_left =
              laws.find_one-any (live_filter chain_id address provider later) _ none missed in
            let there = s.present (matches (live_filter chain_id address provider later)) live in
            absurd (ground (arith, none_left, there)),
      )
