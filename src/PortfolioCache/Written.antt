-- ===== src/PortfolioCache/Written.antt =====
-- What core/cache/portfolio-cache.listener.ts writes to the cache.
use onekey_balance_kit.Base.{
  ℕ, ◌*◌, ◌≡◌, ◌≢◌, ◌⊎◌, refl, inl, inr, Option, some, [], ◌∷◌, ◌++◌, Text, or_else,
}
use onekey_balance_kit.Cache.{Reply-cases, returned, threw, Manager, cache_set}
use onekey_balance_kit.CacheKey.{create_portfolio_key}
use onekey_balance_kit.CacheKey.Portfolio.{IsKeyAddress, create_portfolio_key-injective}
use onekey_balance_kit.Chains.{ChainName}
use onekey_balance_kit.Notification.{Emitted, portfolio_redis_updated}
use onekey_balance_kit.Providers.{ProviderType}
use onekey_balance_kit.PortfolioCache.{
  PortfolioUpdateEvent, mongo_ttl_seconds, event_key, handle_portfolio_update,
}

-- What a cache promises of a write: the value is found, and the other keys are as they were.
pub record Stores {S D : Type 0} (cache : Manager S D) : Type 0 where
  pub fetch-put :
      (key : Text) (v : D) (ttl : ℕ) (s s' : S)
      → cache.put key v ttl s ≡ returned s'
      → cache.fetch key s' ≡ returned (some v)
  pub fetch-put_other :
      (key other : Text) (v : D) (ttl : ℕ) (s s' : S)
      → key ≢ other
      → cache.put key v ttl s ≡ returned s'
      → cache.fetch other s' ≡ cache.fetch other s

-- A portfolio update that the cache refuses changes and emits nothing. One that it takes is followed by
-- one event for the database, the cache has the data under the portfolio's key, and the entry of
-- every portfolio of another chain, address or provider is as it was; the cache keeps what it is
-- given, and the addresses can stand in a key.
pub handle_portfolio_update_cases :
    {S D : Type 0} (cache : Manager S D) (default_ttl : ℕ) (e : PortfolioUpdateEvent D) (s : S)
    (out : Emitted D) (d : ChainName) (b : Text) (q : Option ProviderType)
    → Stores cache
    → IsKeyAddress e.address
    → IsKeyAddress b
    → ¬ ((e.chain ≡ d) × (e.address ≡ b) × (e.provider ≡ q))
    → let (s', out') = handle_portfolio_update cache default_ttl e (s, out) in
      ((cache.put (event_key e) e.portfolio_data (or_else e.ttl_seconds default_ttl * 1000) s
          ≡ threw)
        × (s' ≡ s)
        × (out' ≡ out))
      ⊎ ((out'
            ≡ out
              ++ portfolio_redis_updated e.chain e.chain_id e.address e.portfolio_data e.provider
                  (some mongo_ttl_seconds)
                ∷ [])
          × (cache.fetch (event_key e) s' ≡ returned (some e.portfolio_data))
          × (cache.fetch (create_portfolio_key d b q) s'
              ≡ cache.fetch (create_portfolio_key d b q) s))
unfolding handle_portfolio_update cache_set
handle_portfolio_update_cases cache default_ttl e s out d b q laws ha hb differs =
    let ttl = or_else e.ttl_seconds default_ttl * 1000 in
    elim (Reply-cases (cache.put (event_key e) e.portfolio_data ttl s)) [
      | inl refused ↦ rw (refused, handle_portfolio_update, cache_set) (inl (refl, refl, refl))
      | inr (s', taken) ↦
          rw (taken, handle_portfolio_update, cache_set)
            (inr (
              refl,
              laws.fetch-put (event_key e) e.portfolio_data ttl s s' taken,
              laws.fetch-put_other (event_key e) (create_portfolio_key d b q) e.portfolio_data ttl s
                  s'
                  (λ same.
                    differs (
                      create_portfolio_key-injective e.chain d e.address b e.provider q ha hb same))
                  taken,
            ))
    ]
