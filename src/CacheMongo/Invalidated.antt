-- ===== src/CacheMongo/Invalidated.antt =====
-- The invalidations of core/cache/cache-mongo.service.ts.
use onekey_balance_kit.Base.{
  ℕ, ◌≤◌, ◌≡◌, ◌≢◌, refl, ◌⊎◌, inl, inr, Bool, true, false, Option, none, some, List, [], ◌∷◌, ◌++◌,
  Text, codes, truthy, show, All, arith, Bool-cases, show-AllDigits,
}
use onekey_balance_kit.Cache.Batches.{concat}
use onekey_balance_kit.Cache.Deletion.{delete_by_pattern-all}
use onekey_balance_kit.Cache.{
  returned, threw, StoreView, CacheService, Purge, ensure_connection, delete_by_pattern,
}
use onekey_balance_kit.CacheKey.Patterns.{
  IsPlain, Glob, id_of, create_portfolio_key_lem, plain_text, star_end, value-IsPlain,
  digits-IsPlain,
}
use onekey_balance_kit.CacheKey.{create_portfolio_key, chain_address_pattern}
use onekey_balance_kit.CacheMongo.{
  AddressActivityEvent, is_own_event, invalidation_pattern, handle_address_activity,
}
use onekey_balance_kit.Chains.{ChainName, value}
use onekey_balance_kit.Db.Expired.{IsOfChain, invalidate_address_snapshot-expires}
use onekey_balance_kit.Db.Saved.{IsMongo}
use onekey_balance_kit.Db.{Models, get_portfolio_snapshot, invalidate_address_snapshot}
use onekey_balance_kit.Notification.{Emitted, address_cache_invalidated, address_cache_event}
use onekey_balance_kit.Portfolio.{PortfolioSnapshot}
use onekey_balance_kit.Providers.{ProviderType, provider_value}

module _ {P C D : Type 0} (stores : List (StoreView C)) (exec_ok : ℕ → Bool)
    (scan : Text → List Text) (db : Models P D) (documents : D → List (PortfolioSnapshot P)) where
  -- An address activity that is not the service's own: where the database takes the write and Redis every
  -- batch, every key that Redis has for the address is sent to be unlinked, a later look for a snapshot
  -- of the address throws or finds none, and the invalidation is emitted once. The documents of the
  -- address name the chain of their chain ID.
  pub handle_address_activity-invalidates :
      {E : Type 0} (e : AddressActivityEvent) (now later n : ℕ) (d d' : D)
      (service : CacheService C) (out : Emitted E) (provider : Option ProviderType)
      → IsMongo db documents
      → All (IsOfChain e.chain e.chain_id e.address) (documents d)
      → is_own_event e ≡ false
      → invalidate_address_snapshot db e.chain e.chain_id e.address none now d ≡ returned (n, d')
      → now ≤ later
      → (ensure_connection stores service).0 ≡ true
      → ((k : ℕ) → exec_ok k ≡ true)
      → let (after, purged, out') =
          handle_address_activity stores exec_ok true scan db e now d service out in
        let found = get_portfolio_snapshot db e.chain_id e.address provider later after in
        ((found ≡ threw) ⊎ (found ≡ returned none))
        × ((p : Purge C) × (purged ≡ some p)
            × (concat p.batches ≡ scan (chain_address_pattern e.chain e.chain_id e.address)))
        × (out'
            ≡ out
              ++ address_cache_invalidated (address_cache_event e.chain e.chain_id e.address now)
                ∷ [])
  unfolding handle_address_activity
  handle_address_activity-invalidates e now later n d d' service out provider laws all own done h
        connected succeeds =
      let keys = scan (chain_address_pattern e.chain e.chain_id e.address) in
      rw (own, done, handle_address_activity)
        (
          invalidate_address_snapshot-expires e.chain e.chain_id e.address db documents provider now
              later n d d' laws all done h,
          (
            delete_by_pattern stores exec_ok true keys service,
            refl,
            (delete_by_pattern-all stores exec_ok keys service connected succeeds).0,
          ),
          refl,
        )

-- What Redis documents of a plain unit in a pattern, the other way: it matches only itself.
abbrev pub MatchesOnlyItself : (Text → Text → Bool) → Type 0
MatchesOnlyItself matches =
    (c : ℕ) (p s : Text)
    → IsPlain c
    → matches (c ∷ p) s ≡ true
    → (t : Text) × (s ≡ c ∷ t) × (matches p t ≡ true)

module _ (matches : Text → Text → Bool) (law : MatchesOnlyItself matches) where
  stripped : (t p s : Text) → All IsPlain t → matches (t ++ p) (t ++ s) ≡ true → matches p s ≡ true
  stripped [] p s h m = m
  stripped (c ∷ t) p s h m =
      let (u, e, rest) = law c (t ++ p) (c ∷ (t ++ s)) h.0 m in
      let same : t ++ s ≡ u = ground (arith, e) in stripped t p s h.1 (rw same rest)

  stripped_unit :
      (c : ℕ) (p s : Text) → IsPlain c → matches (c ∷ p) (c ∷ s) ≡ true → matches p s ≡ true
  stripped_unit c p s h m = stripped (c ∷ []) p s (h, tt) m

  nothing_left : matches (codes ":*") [] ≢ true
  nothing_left m = let (t, e, rest) = law b':' (codes "*") [] (omega arith) m in cc

-- The pattern of `invalidateAddressCache` has a colon behind the address: it matches the keys of the
-- portfolios that name a provider, and never the key of one that names none.
pub invalidation_pattern_cases :
    (matches : Text → Text → Bool) (c : ChainName) (a : Text) (p : ProviderType)
    → Glob matches
    → MatchesOnlyItself matches
    → truthy a ≡ true
    → All IsPlain a
    → (matches (invalidation_pattern c (id_of c) a) (create_portfolio_key c a (some p)) ≡ true)
      × (matches (invalidation_pattern c (id_of c) a) (create_portfolio_key c a none) ≡ false)
unfolding invalidation_pattern
invalidation_pattern_cases matches c a p glob law h plain = (
  rw (create_portfolio_key_lem c a (some p) h) (
      plain_text glob (codes "portfolio:") _ _ (omega arith) (
        plain_text glob (value c) _ _ (value-IsPlain c) (
          glob.plain b':' _ _ (omega arith) (
            plain_text glob (show (id_of c)) _ _ (digits-IsPlain _ (show-AllDigits (id_of c))) (
              glob.plain b':' _ _ (omega arith) (
                plain_text glob a _ _ plain
                  (glob.plain b':' _ _ (omega arith) (star_end glob (provider_value p))))))))),
  elim (Bool-cases (matches (invalidation_pattern c (id_of c) a) (create_portfolio_key c a none))) [
    | inr missed ↦ missed
    | inl hit ↦ absurd (
        nothing_left matches law (
          stripped matches law a _ _ plain (
            stripped_unit matches law b':' _ _ (omega arith) (
              stripped matches law (show (id_of c)) _ _
                (digits-IsPlain _ (show-AllDigits (id_of c)))
                (stripped_unit matches law b':' _ _ (omega arith) (
                  stripped matches law (value c) _ _ (value-IsPlain c) (
                    stripped matches law (codes "portfolio:") _ _ (omega arith)
                      (rw (create_portfolio_key_lem c a none h) at hit))))))))
  ],
)
