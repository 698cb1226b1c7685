-- ===== src/Db/Store.antt =====
-- An instance of the models of core/db: the database is the list of its snapshots.
use onekey_balance_kit.Base.{
  ℕ, ◌≡◌, refl, ap, ◌∙◌, Bool, true, false, ◌&&◌, Option, none, some, List, [], ◌∷◌, any, map,
  keep_if, find_if, is_some, if◌then◌else◌, Bool-cases, inl, inr, arith,
}
use onekey_balance_kit.Cache.{Reply, Reply-cases, returned, threw}
use onekey_balance_kit.Chains.{ethereum}
use onekey_balance_kit.Db.Filters.{Condition, matches, chain_id_is, address_is, provider_is}
use onekey_balance_kit.Db.Saved.{applied, changed, IsMongo}
use onekey_balance_kit.Db.{SnapshotUpdate, Models}
use onekey_balance_kit.Portfolio.{PortfolioSnapshot}

-- The database of the tests: no price and no NFT, and snapshots in a list.
abbrev pub Snapshots : Type 0
Snapshots = List (PortfolioSnapshot ℕ)

abbrev blank : PortfolioSnapshot ℕ
blank = record {
  chain = ethereum;
  chain_id = 1;
  address = [];
  provider = none;
  native = none;
  fungibles = none;
  nfts = none;
  block_number = none;
  schema_ver = none;
  webhook_monitored = false;
  expires_at = none;
}

-- The document that an upsert makes of the equalities of a filter.
abbrev fresh : List Condition → PortfolioSnapshot ℕ
fresh [] = blank
fresh (chain_id_is n ∷ f) = record (fresh f) { chain_id = n }
fresh (address_is a ∷ f) = record (fresh f) { address = a }
fresh (provider_is p ∷ f) = record (fresh f) { provider = some p }
fresh (_ ∷ f) = fresh f

abbrev behind :
    PortfolioSnapshot ℕ
    → Reply (Option (PortfolioSnapshot ℕ) × Snapshots)
    → Reply (Option (PortfolioSnapshot ℕ) × Snapshots)
behind x threw = threw
behind x (returned (o, d)) = returned (o, x ∷ d)

-- The first document that matches is written, or a new one behind the others; a filter that no new
-- document can match is refused.
unfoldable pub write_first :
    List Condition → SnapshotUpdate ℕ → Snapshots → Reply (Option (PortfolioSnapshot ℕ) × Snapshots)
write_first f u [] =
    let x = applied u (fresh f) in if matches f (fresh f) then returned (some x, x ∷ []) else threw
write_first f u (x ∷ d) =
    let rest = write_first f u d in
    if matches f x then returned (some (applied u x), applied u x ∷ d) else behind x rest

abbrev pub snapshot_store : Models ℕ Snapshots
snapshot_store = record {
  find = λ f d. returned (keep_if (matches f) d);
  find_one = λ f d. returned (find_if (matches f) d);
  find_one_and_update = write_first;
  update_many = λ f c d. returned (0, map (changed f c) d);
  create_history = λ h d. returned d;
}

module _ (p : PortfolioSnapshot ℕ → Bool) where
  any-keep_if :
      (test : PortfolioSnapshot ℕ → Bool) (xs : Snapshots)
      → any test (keep_if p xs) ≡ any (λ x. p x && test x) xs
  any-keep_if test [] = refl
  any-keep_if test (x ∷ xs) = ground (arith, any-keep_if test xs)

  some-find_if : (xs : Snapshots) → is_some (find_if p xs) ≡ any p xs
  some-find_if [] = refl
  some-find_if (x ∷ xs) = ground (arith, some-find_if xs)

-- What a write leaves, for the law of upserts.
abbrev IsWritten : List Condition → SnapshotUpdate ℕ → Snapshots → PortfolioSnapshot ℕ → Type 0
IsWritten f u d' x =
    (old : PortfolioSnapshot ℕ) × (matches f old ≡ true)
    × (x ≡ applied u old)
    × ((test : PortfolioSnapshot ℕ → Bool) → test x ≡ true → any test d' ≡ true)

write_first-IsWritten :
    (f : List Condition) (u : SnapshotUpdate ℕ) (d d' : Snapshots) (x : PortfolioSnapshot ℕ)
    → write_first f u d ≡ returned (some x, d')
    → IsWritten f u d' x
unfolding write_first
write_first-IsWritten f u [] d' x e = elim (Bool-cases (matches f (fresh f))) [
  | inr refused ↦ absurd (ground (arith, refused, e))
  | inl hit ↦
      let same : x ≡ applied u (fresh f) = ground (arith, hit, e) in
      let all : d' ≡ applied u (fresh f) ∷ [] = ground (arith, hit, e) in
      (fresh f, hit, same, λ test h. rw (all, ← same, h) refl)
]
write_first-IsWritten f u (y ∷ d) d' x e = elim (Bool-cases (matches f y)) [
  | inl hit ↦
      let same : x ≡ applied u y = ground (arith, hit, e) in
      let all : d' ≡ applied u y ∷ d = ground (arith, hit, e) in
      (y, hit, same, λ test h. rw (all, ← same, h) refl)
  | inr miss ↦ elim (Reply-cases (write_first f u d)) [
    | inl refused ↦ absurd (ground (arith, miss, refused, e))
    | inr ((o, d''), written) ↦
        let first : o ≡ some x = ground (arith, miss, written, e) in
        let all : d' ≡ y ∷ d'' = ground (arith, miss, written, e) in
        let (old, matching, same, present) =
          write_first-IsWritten f u d d'' x (written ∙ ap (λ q. returned (q, d'')) first) in
        (old, matching, same, λ test h. rw (all, present test h) (ground arith))
  ]
]

pub snapshot_store-IsMongo : IsMongo snapshot_store (λ d. d)
snapshot_store-IsMongo = record {
  find_one-any = λ f d o e. ground (arith, some-find_if (matches f) d, e);
  find-any = λ f d xs test e. ground (arith, any-keep_if (matches f) test d, e);
  updated = λ f c d d' n e. ground (arith, e);
  upserted = write_first-IsWritten;
  history-documents = λ h d d' e. ground (arith, e);
}
