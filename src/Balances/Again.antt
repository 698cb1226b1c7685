-- ===== src/Balances/Again.antt =====
-- A request for a portfolio, the listener of the cache, and the next request: balances/services and
-- core/cache/portfolio-cache.listener.ts together.
use onekey_balance_kit.Base.{ℕ, ◌*◌, ◌≡◌, ◌∙◌, ap, subst, Option, none, some, [], ◌∷◌, Text, arith}
use onekey_balance_kit.Balances.Answers.{
  IsAnswered, from_store, from_chain, store_failed, no_service, chain_refused,
  get_portfolio-IsAnswered,
}
use onekey_balance_kit.Balances.{
  BalanceService, ChainApi, Answer, answered, normalize_chain_input, get_portfolio,
  get_portfolio_of_chain, fetch_portfolio,
}
use onekey_balance_kit.Cache.{Reply, returned, Manager, cache_set}
use onekey_balance_kit.CacheKey.{create_portfolio_key}
use onekey_balance_kit.CacheMongo.Read.{
  read-cached, get_portfolio_data-cached, get_portfolio_data-IsRead,
}
use onekey_balance_kit.CacheMongo.{get_portfolio_data}
use onekey_balance_kit.Chains.{ChainName, chain_info_map}
use onekey_balance_kit.Db.{Models}
use onekey_balance_kit.Notification.{Notification, portfolio_update, Emitted}
use onekey_balance_kit.Portfolio.{BalanceResponse}
use onekey_balance_kit.PortfolioCache.Written.{Stores}
use onekey_balance_kit.PortfolioCache.{handle_portfolio_update}
use onekey_balance_kit.Providers.{ProviderType}

module _ {S A : Type 0} (cache : Manager S A) (default_ttl : ℕ) where
  -- The event emitter hands portfolio updates to the listener of the cache, in their order.
  abbrev pub deliver : Notification A → S × Emitted A → S × Emitted A
  deliver (portfolio_update chain chain_id address d provider ttl) w =
      handle_portfolio_update cache default_ttl
        (record {
          chain = chain;
          chain_id = chain_id;
          address = address;
          portfolio_data = d;
          provider = provider;
          ttl_seconds = ttl;
        })
        w
  deliver _ w = w

  abbrev pub deliver_all : Emitted A → S × Emitted A → S × Emitted A
  deliver_all [] w = w
  deliver_all (n ∷ ns) w = deliver_all ns (deliver n w)

-- A cache that takes every write.
abbrev pub Takes : {S A : Type 0} → Manager S A → Type 0
Takes {S = S} {A = A} cache =
    (key : Text) (v : A) (ttl : ℕ) (s : S) → (s' : S) × (cache.put key v ttl s ≡ returned s')

module _ {C V S D P : Type 0} (make : C → Reply (Option V)) (api : ChainApi V P)
    (cache : Manager S (BalanceResponse P)) (default_ttl : ℕ) (db : Models P D) where
  cached-answered :
      (input address : Text) (chain : ChainName) (provider : Option ProviderType) (now : ℕ) (d : D)
      (s : BalanceService C V S P) (r : BalanceResponse P)
      → normalize_chain_input input ≡ some chain
      → cache.fetch (create_portfolio_key chain address provider) s.cached ≡ returned (some r)
      → get_portfolio make api cache default_ttl db input address provider now d s ≡ (answered r, s)
  unfolding get_portfolio get_portfolio_of_chain
  cached-answered input address chain provider now d s r known hit =
      let id = (chain_info_map chain).id in
      let read =
        get_portfolio_data-cached cache default_ttl db chain id address provider none now d s.cached
          r hit in
      rw (known, get_portfolio, read, get_portfolio_of_chain)
        (ap (λ x. (answered r, record s { cached = x.1 })) read)

  delivered-cached :
      (chain : ChainName) (chain_id : ℕ) (address : Text) (provider : Option ProviderType)
      (r : BalanceResponse P) (s : S) (out : Emitted (BalanceResponse P))
      → Stores cache
      → Takes cache
      → let s' =
          (deliver_all cache default_ttl
            (portfolio_update chain chain_id address r provider none ∷ [])
            (s, out)).0 in
        cache.fetch (create_portfolio_key chain address provider) s' ≡ returned (some r)
  unfolding handle_portfolio_update cache_set
  delivered-cached chain chain_id address provider r s out laws takes =
      let key = create_portfolio_key chain address provider in
      let (s', taken) = takes key r (default_ttl * 1000) s in
      rw (taken, handle_portfolio_update, cache_set)
        (laws.fetch-put key r (default_ttl * 1000) s s' taken)

  -- The service itself writes to the cache only what it reads from the database.
  get_portfolio-cached :
      (input address : Text) (chain : ChainName) (provider : Option ProviderType) (now : ℕ) (d : D)
      (s : BalanceService C V S P)
      → normalize_chain_input input ≡ some chain
      → (get_portfolio make api cache default_ttl db input address provider now d s).1.cached
        ≡ (get_portfolio_data cache default_ttl db chain
            (chain_info_map chain).id
            address
            provider
            none
            now
            d
            s.cached).1
  unfolding get_portfolio get_portfolio_of_chain fetch_portfolio
  get_portfolio-cached input address chain provider now d s known =
      rw (known, get_portfolio) (ground arith)

  delivered-IsAnswered :
      (chain : ChainName) (address : Text) (provider : Option ProviderType) (now : ℕ)
      (stored : Reply (Option (BalanceResponse P))) (factory : _)
      (answer : Answer (BalanceResponse P)) (s' : BalanceService C V S P) (r : BalanceResponse P)
      → Stores cache
      → Takes cache
      → IsAnswered make api cache default_ttl db chain address provider now stored factory [] answer
          s'
      → answer ≡ answered r
      → (stored ≡ returned (some r)
          → cache.fetch (create_portfolio_key chain address provider) s'.cached ≡ returned (some r))
      → cache.fetch
          (create_portfolio_key chain address provider)
          (deliver_all cache default_ttl s'.emitted (s'.cached, [])).0
        ≡ returned (some r)
  delivered-IsAnswered chain address provider now stored factory answer s' r laws takes
        (from_store q hit a kept silent) e read =
      let same : q ≡ r = ground (arith, a, e) in
      rw silent (read (hit ∙ ap (λ x. returned (some x)) same))
  delivered-IsAnswered chain address provider now stored factory answer s' r laws takes
        (from_chain q service miss a found given sent) e read =
      let same : q ≡ r = ground (arith, a, e) in
      rw (sent, same)
        (delivered-cached chain (chain_info_map chain).id address provider r s'.cached [] laws
          takes)
  delivered-IsAnswered chain address provider now stored factory answer s' r laws takes
        (store_failed q a silent) e read =
      absurd (ground (arith, a, e))
  delivered-IsAnswered chain address provider now stored factory answer s' r laws takes
        (no_service q missing a silent) e read =
      absurd (ground (arith, a, e))
  delivered-IsAnswered chain address provider now stored factory answer s' r laws takes
        (chain_refused p service q found fetched a silent) e read =
      absurd (ground (arith, a, e))

  -- A portfolio that was answered is answered again, from the cache and without an event, to a request for
  -- the same chain, address and provider, however the chain is spelled and whatever the database and the
  -- chain have by then: once the listener of the cache has had the events of the first request. The
  -- cache keeps what it is given and takes every write.
  pub get_portfolio-again :
      (input again address : Text) (chain : ChainName) (provider : Option ProviderType)
      (now later : ℕ) (d d' : D) (s : BalanceService C V S P) (r : BalanceResponse P)
      → Stores cache
      → Takes cache
      → normalize_chain_input input ≡ some chain
      → normalize_chain_input again ≡ some chain
      → s.emitted ≡ []
      → let first = get_portfolio make api cache default_ttl db input address provider now d s in
        first.0 ≡ answered r
        → let s' = record first.1 {
          cached = (deliver_all cache default_ttl first.1.emitted (first.1.cached, [])).0;
          emitted = [];
        } in
          get_portfolio make api cache default_ttl db again address provider later d' s'
          ≡ (answered r, s')
  get_portfolio-again input again address chain provider now later d d' s r laws takes known known'
        idle e =
      let id = (chain_info_map chain).id in
      let first = get_portfolio make api cache default_ttl db input address provider now d s in
      let read =
        get_portfolio_data cache default_ttl db chain id address provider none now d s.cached in
      let hit =
        delivered-IsAnswered chain address provider now read.0 s.factory first.0 first.1 r laws
          takes
          (subst
            (λ o.
              IsAnswered make api cache default_ttl db chain address provider now read.0 s.factory o
                first.0 first.1)
            idle
            (get_portfolio-IsAnswered make api cache default_ttl db input address chain provider now
              d s known))
          e
          (λ stored. rw (get_portfolio-cached input address chain provider now d s known) (
            read-cached cache default_ttl db _ now _ s.cached read.0 read.1 r
              (get_portfolio_data-IsRead cache default_ttl db chain id address provider none now d
                s.cached laws)
              stored)) in
      cached-answered again address chain provider later d' _ r known' hit
