-- ===== src/Cache/Lifecycle.antt =====
-- The rest of core/cache/cache.service.ts: the start and the end of the service, `reset`, and the methods on
-- values with the connection that they look for first. The client of Redis is an argument.
use onekey_balance_kit.Base.{
  ℕ, ◌≡◌, Bool, true, false, ◌&&◌, Option, none, some, List, Text, if◌then◌else◌, arith,
}
use onekey_balance_kit.Cache.{
  Reply, returned, threw, Manager, Result, StoreView, CacheService, ensure_connection,
  get_native_redis_client, cache_get, cache_set, cache_delete,
}

pub data CacheType : Type 0 where
  redis memory : CacheType

-- What the service calls of the client; `S` is the state of the stores.
pub record RedisClient (C S : Type 0) : Type 0 where
  pub is_open : C → Bool
  pub ping : C → Reply Bool
  pub flush_db : C → S → Reply S

abbrev pub or_same : {S : Type 0} → Reply S → S → S
or_same threw s = s
or_same (returned t) s = t

module _ {C : Type 0} where
  -- `onModuleInit`: the connection is looked for, and the answer is not awaited.
  unfoldable pub start_cache : List (StoreView C) → CacheService C → CacheService C
  start_cache stores s = if s.is_using_redis then (ensure_connection stores s).1 else s

  unfoldable pub get_cache_type : CacheService C → CacheType
  get_cache_type s = if s.is_using_redis then redis else memory

module _ {C S : Type 0} (client : RedisClient C S) where
  -- The clients that `onModuleDestroy` asks to quit.
  unfoldable pub clients_to_quit : CacheService C → Option C
  clients_to_quit s = elim s.redis_client [
    | none ↦ none
    | some c ↦ if client.is_open c then some c else none
  ]

  abbrev is_reply : {A : Type 0} → Reply A → Bool
  is_reply threw = false
  is_reply (returned _) = true

  unfoldable pub is_redis_connected : CacheService C → Bool
  is_redis_connected s = s.is_using_redis && elim s.redis_client [
    | none ↦ false
    | some c ↦ client.is_open c && is_reply (client.ping c)
  ]

  abbrev flushed : Option C → S → S
  flushed none s = s
  flushed (some c) s = or_same (client.flush_db c s) s

  -- `reset`: the manager's own, where it has one, or else FLUSHDB over the connection.
  unfoldable pub reset_cache :
      Option (S → Reply S) → List (StoreView C) → CacheService C → S → S × CacheService C
  reset_cache manager_reset stores service s =
      let connected = ensure_connection stores service in
      elim manager_reset [
        | some reset ↦ (or_same (reset s) s, connected.1)
        | none ↦ (
          if connected.1.is_using_redis && connected.0
              then flushed connected.1.redis_client s
              else s,
          connected.1,
        )
      ]

module _ {C S V : Type 0} (m : Manager S V) (stores : List (StoreView C)) where
  unfoldable pub get_value : Text → S → CacheService C → Result (Option V) × CacheService C
  get_value key s service = (cache_get m key s, (ensure_connection stores service).1)

  unfoldable pub set_value : Text → V → Option ℕ → S → CacheService C → Result S × CacheService C
  set_value key v ttl s service =
      (cache_set m service.default_ttl key v ttl s, (ensure_connection stores service).1)

  unfoldable pub delete_value : Text → S → CacheService C → Result S × CacheService C
  delete_value key s service = (cache_delete m key s, (ensure_connection stores service).1)

module _ {C : Type 0} where
  -- The client that serves a service from now on.
  abbrev pub serving : List (StoreView C) → CacheService C → Option C
  serving stores s =
      if s.is_using_redis
      then elim s.redis_client [ some c ↦ some c | none ↦ get_native_redis_client stores ]
      else none

module _ {C S : Type 0} (client : RedisClient C S) where
  -- A reset without the manager's own empties the stores exactly where FLUSHDB does it: on a Redis cache
  -- whose client is found. Where FLUSHDB throws, and on a memory cache, it changes nothing.
  pub reset_cache_cases :
      (stores : List (StoreView C)) (service : CacheService C) (s : S)
      → (reset_cache client none stores service s).0
        ≡ elim (serving stores service) [ none ↦ s | some c ↦ or_same (client.flush_db c s) s ]
  unfolding reset_cache ensure_connection
  reset_cache_cases stores service s = ground arith
