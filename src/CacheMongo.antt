-- ===== src/CacheMongo.antt =====
-- core/cache/cache-mongo.service.ts: portfolio data is read from the cache, then from the database; both
-- are invalidated. The cache manager and the models of the database are arguments; `scan` gives the keys
-- that Redis has for a pattern.
pub mod Read
pub mod RoundTrip
pub mod Invalidated
pub mod Tests
use onekey_balance_kit.Base.{
  ℕ, Bool, Option, none, some, List, [], ◌∷◌, ◌++◌, Text, codes, show, map, or_else, text_beq,
  if◌then◌else◌,
}
use onekey_balance_kit.Cache.{
  Reply, returned, threw, Manager, Result, ok, err, StoreView, CacheService, Purge, cache_get,
  cache_set, delete_by_pattern,
}
use onekey_balance_kit.CacheKey.{create_portfolio_key, chain_address_pattern, provider_pattern}
use onekey_balance_kit.Chains.{ChainName, value}
use onekey_balance_kit.Db.{Models, or_number, get_portfolio_snapshot, invalidate_address_snapshot}
use onekey_balance_kit.Notification.{Emitted, emit_address_cache_invalidated}
use onekey_balance_kit.Portfolio.{NativeBalance, Token, BalanceResponse, PortfolioSnapshot}
use onekey_balance_kit.Providers.{ProviderType}

module _ {P : Type 0} where
  -- The keys of a token that an answer copies from a snapshot.
  abbrev pub listed : Token P → Token P
  listed t = record t { mint = none; token_metadata = none }

  abbrev pub with_decimals : NativeBalance P → NativeBalance P
  with_decimals n = record n { decimals = some (or_number n.decimals 18) }

  -- A snapshot as a `BalanceResponse`; without a native balance, reading its symbol throws.
  unfoldable pub response_of : ℕ → PortfolioSnapshot P → Reply (BalanceResponse P)
  response_of now x = elim x.native [
    | none ↦ threw
    | some n ↦ returned (record {
      native_balance = with_decimals n;
      tokens = elim x.fungibles [ none ↦ [] | some xs ↦ map listed xs ];
      nfts = or_else x.nfts [];
      updated_at = now;
    })
  ]

module _ {P S D : Type 0} (cache : Manager S (BalanceResponse P)) (default_ttl : ℕ)
    (db : Models P D) where
  -- What the service does with a snapshot: the answer goes to the cache first.
  unfoldable pub cache_response :
      Text → Option ℕ → Reply (BalanceResponse P) → S → Reply (Option (BalanceResponse P)) × S
  cache_response key ttl threw s = (threw, s)
  cache_response key ttl (returned r) s = elim (cache_set cache default_ttl key r ttl s) [
    | err e ↦ (threw, s)
    | ok s' ↦ (returned (some r), s')
  ]

  -- `getPortfolioData`: an error of the cache, the database or the conversion is thrown on.
  unfoldable pub get_portfolio_data :
      ChainName
      → ℕ
      → Text
      → Option ProviderType
      → Option ℕ
      → (now : ℕ) → D
      → S
      → Reply (Option (BalanceResponse P)) × S
  unfolding cache_response
  get_portfolio_data chain chain_id address provider ttl now d s =
      let key = create_portfolio_key chain address provider in
      elim (cache_get cache key s) [
        | err e ↦ (threw, s)
        | ok (some r) ↦ (returned (some r), s)
        | ok none ↦ elim (get_portfolio_snapshot db chain_id address provider now d) [
          | threw ↦ (threw, s)
          | returned none ↦ (returned none, s)
          | returned (some x) ↦ cache_response key ttl (response_of now x) s
        ]
      ]

-- The pattern of `invalidateAddressCache`.
unfoldable pub invalidation_pattern : ChainName → ℕ → Text → Text
invalidation_pattern chain chain_id address =
    codes "portfolio"
    ++ (b':' ∷ (value chain ++ (b':' ∷ (show chain_id ++ (b':' ∷ (address ++ codes ":*"))))))

-- The event that `handleAddressActivity` listens to; `action` is `metadata?.action`.
pub record AddressActivityEvent : Type 0 where
  pub chain : ChainName
  pub chain_id : ℕ
  pub address : Text
  pub action : Option Text

abbrev pub is_own_event : AddressActivityEvent → Bool
is_own_event e = text_beq (or_else e.action []) (codes "cache_invalidated")

module _ {P C D : Type 0} (stores : List (StoreView C)) (exec_ok : ℕ → Bool) (scan_ok : Bool)
    (scan : Text → List Text) (db : Models P D) where
  abbrev pub purge : Text → CacheService C → Purge C
  purge pattern service = delete_by_pattern stores exec_ok scan_ok (scan pattern) service

  unfoldable pub invalidate_address_cache :
      ChainName → ℕ → Text → (now : ℕ) → D → CacheService C → Reply ℕ × D × Purge C
  invalidate_address_cache chain chain_id address now d service =
      let purged = purge (invalidation_pattern chain chain_id address) service in
      elim (invalidate_address_snapshot db chain chain_id address none now d) [
        | threw ↦ (threw, d, purged)
        | returned (n, d') ↦ (returned purged.count, d', purged)
      ]

  unfoldable pub invalidate_provider_cache : ProviderType → CacheService C → Purge C
  invalidate_provider_cache provider service = purge (provider_pattern provider) service

  -- `handleAddressActivity`: both invalidations are started, and neither waits for the other.
  unfoldable pub handle_address_activity :
      {E : Type 0}
      → AddressActivityEvent
      → (now : ℕ) → D
      → CacheService C
      → Emitted E
      → D × Option (Purge C) × Emitted E
  handle_address_activity e now d service out = if is_own_event e then (d, none, out) else (
    elim (invalidate_address_snapshot db e.chain e.chain_id e.address none now d) [
      | threw ↦ d
      | returned (n, d') ↦ d'
    ],
    some (purge (chain_address_pattern e.chain e.chain_id e.address) service),
    emit_address_cache_invalidated e.chain e.chain_id e.address now out,
  )
