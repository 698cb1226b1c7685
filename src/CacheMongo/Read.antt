-- ===== src/CacheMongo/Read.antt =====
-- `getPortfolioData` of core/cache/cache-mongo.service.ts.
use onekey_balance_kit.Base.{ℕ, ◌≡◌, refl, inl, inr, Option, none, some, Text, arith, or_else, ◌*◌}
use onekey_balance_kit.Cache.{Reply, Reply-cases, returned, threw, Manager, cache_get, cache_set}
use onekey_balance_kit.CacheKey.{create_portfolio_key}
use onekey_balance_kit.CacheMongo.{response_of, cache_response, get_portfolio_data}
use onekey_balance_kit.Chains.{ChainName}
use onekey_balance_kit.Db.{Models, get_portfolio_snapshot}
use onekey_balance_kit.Portfolio.{BalanceResponse, PortfolioSnapshot}
use onekey_balance_kit.PortfolioCache.Written.{Stores}
use onekey_balance_kit.Providers.{ProviderType}

module _ {P S D : Type 0} (cache : Manager S (BalanceResponse P)) (default_ttl : ℕ)
    (db : Models P D) where
  -- What makes a reading fail: the cache throws, or has nothing and the database throws, or the snapshot
  -- cannot be read, or the cache does not take its answer.
  pub data HasFailed (key : Text) (now : ℕ) (found : Reply (Option (PortfolioSnapshot P))) (s : S)
      : Type 0 where
    cache_failed : cache.fetch key s ≡ threw → HasFailed key now found s
    database_failed : cache.fetch key s ≡ returned none → found ≡ threw → HasFailed key now found s
    snapshot_failed :
        (x : PortfolioSnapshot P)
        → cache.fetch key s ≡ returned none
        → found ≡ returned (some x)
        → response_of now x ≡ threw
        → HasFailed key now found s
    not_cached :
        (x : PortfolioSnapshot P) (r : BalanceResponse P) (ms : ℕ)
        → cache.fetch key s ≡ returned none
        → found ≡ returned (some x)
        → response_of now x ≡ returned r
        → cache.put key r ms s ≡ threw
        → HasFailed key now found s

  -- Where an answer comes from: the cache, which stays as it was, or a snapshot, whose answer the cache
  -- has afterwards.
  pub data IsRead (key : Text) (now : ℕ) (found : Reply (Option (PortfolioSnapshot P))) (s : S)
      (answer : Reply (Option (BalanceResponse P))) (s' : S) : Type 0 where
    from_cache :
        (r : BalanceResponse P)
        → answer ≡ returned (some r)
        → cache.fetch key s ≡ returned (some r)
        → s' ≡ s
        → IsRead key now found s answer s'
    from_database :
        (x : PortfolioSnapshot P) (r : BalanceResponse P)
        → cache.fetch key s ≡ returned none
        → found ≡ returned (some x)
        → response_of now x ≡ returned r
        → answer ≡ returned (some r)
        → cache.fetch key s' ≡ returned (some r)
        → IsRead key now found s answer s'
    missing :
        cache.fetch key s ≡ returned none
        → found ≡ returned none
        → answer ≡ returned none
        → s' ≡ s
        → IsRead key now found s answer s'
    failed : HasFailed key now found s → answer ≡ threw → s' ≡ s → IsRead key now found s answer s'

  -- Portfolio data comes from the cache where that has it, else from the unexpired snapshot, whose answer
  -- is in the cache afterwards; without either there is none. It throws, and leaves the cache as
  -- it was, only where the cache or the database throws, the snapshot cannot be read or the cache does
  -- not take its answer. The cache keeps what it is given.
  pub get_portfolio_data-IsRead :
      (chain : ChainName) (chain_id : ℕ) (address : Text) (provider : Option ProviderType)
      (ttl : Option ℕ) (now : ℕ) (d : D) (s : S)
      → Stores cache
      → let r =
          get_portfolio_data cache default_ttl db chain chain_id address provider ttl now d s in
        IsRead
          (create_portfolio_key chain address provider)
          now
          (get_portfolio_snapshot db chain_id address provider now d)
          s
          r.0
          r.1
  unfolding get_portfolio_data cache_get cache_set cache_response
  get_portfolio_data-IsRead chain chain_id address provider ttl now d s laws =
      let key = create_portfolio_key chain address provider in
      let found = get_portfolio_snapshot db chain_id address provider now d in
      let ms = or_else ttl default_ttl * 1000 in
      elim (Reply-cases (cache.fetch key s)) [
        | inl broken ↦
            rw (broken, get_portfolio_data, cache_get) (failed (cache_failed broken) refl refl)
        | inr (some r, hit) ↦ rw (hit, get_portfolio_data, cache_get) (from_cache r refl hit refl)
        | inr (none, miss) ↦ elim (Reply-cases found) [
          | inl broken ↦
              rw (miss, broken, get_portfolio_data, cache_get)
                (failed (database_failed miss refl) refl refl)
          | inr (none, absent) ↦
              rw (miss, absent, get_portfolio_data, cache_get) (missing miss refl refl refl)
          | inr (some x, present) ↦ elim (Reply-cases (response_of now x)) [
            | inl broken ↦
                rw (miss, present, broken, get_portfolio_data, cache_get, cache_response)
                  (failed (snapshot_failed x miss refl broken) refl refl)
            | inr (r, made) ↦ elim (Reply-cases (cache.put key r ms s)) [
              | inl refused ↦
                  rw
                    (
                      miss, present, made, refused, get_portfolio_data, cache_get, cache_response,
                      cache_set,
                    )
                    (failed (not_cached x r ms miss refl made refused) refl refl)
              | inr (s', taken) ↦
                  rw
                    (
                      miss, present, made, taken, get_portfolio_data, cache_get, cache_response,
                      cache_set,
                    )
                    (from_database x r miss refl made refl (laws.fetch-put key r ms s s' taken))
            ]
          ]
        ]
      ]

  pub get_portfolio_data-cached :
      (chain : ChainName) (chain_id : ℕ) (address : Text) (provider : Option ProviderType)
      (ttl : Option ℕ) (now : ℕ) (d : D) (s : S) (r : BalanceResponse P)
      → cache.fetch (create_portfolio_key chain address provider) s ≡ returned (some r)
      → get_portfolio_data cache default_ttl db chain chain_id address provider ttl now d s
        ≡ (returned (some r), s)
  unfolding get_portfolio_data cache_get
  get_portfolio_data-cached chain chain_id address provider ttl now d s r hit =
      rw (hit, get_portfolio_data, cache_get) refl

  pub read-cached :
      (key : Text) (now : ℕ) (found : Reply (Option (PortfolioSnapshot P))) (s : S)
      (answer : Reply (Option (BalanceResponse P))) (s' : S) (r : BalanceResponse P)
      → IsRead key now found s answer s'
      → answer ≡ returned (some r)
      → cache.fetch key s' ≡ returned (some r)
  read-cached key now found s answer s' r (from_cache q a hit same) e = rw (same, hit, ← a, e) refl
  read-cached key now found s answer s' r (from_database x q miss f made a hit) e =
      rw (hit, ← a, e) refl
  read-cached key now found s answer s' r (missing miss f a same) e = absurd (ground (arith, a, e))
  read-cached key now found s answer s' r (failed w a same) e = absurd (ground (arith, a, e))

  -- Portfolio data that was read is read again from the cache, whatever the database holds by then; the
  -- cache keeps what it is given.
  pub get_portfolio_data-again :
      (chain : ChainName) (chain_id : ℕ) (address : Text) (provider : Option ProviderType)
      (ttl : Option ℕ) (now later : ℕ) (d d' : D) (s : S) (r : BalanceResponse P)
      → Stores cache
      → let first =
          get_portfolio_data cache default_ttl db chain chain_id address provider ttl now d s in
        first.0 ≡ returned (some r)
        → get_portfolio_data cache default_ttl db chain chain_id address provider ttl later d'
            first.1
          ≡ (returned (some r), first.1)
  get_portfolio_data-again chain chain_id address provider ttl now later d d' s r laws e =
      let first =
        get_portfolio_data cache default_ttl db chain chain_id address provider ttl now d s in
      get_portfolio_data-cached chain chain_id address provider ttl later d' first.1 r (
        read-cached _ now _ s first.0 first.1 r
          (get_portfolio_data-IsRead chain chain_id address provider ttl now d s laws) e)
