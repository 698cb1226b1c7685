-- ===== src/Cache.antt =====
-- core/cache/cache.service.ts. The cache manager, its stores and the Redis client are not under src:
-- a manager is an argument, whose calls return or throw; a Redis scan is the list of keys that it
-- yields and whether it ends without an error; an `exec` returns or throws by its number in a row.
pub mod Deletion
pub mod Batches
pub mod Connection
pub mod Lifecycle
pub mod Tests
use onekey_balance_kit.Base.{
  ℕ, zero, suc, ◌+◌, ◌*◌, Bool, true, false, ◌&&◌, ◌||◌, not, Option, none, some, List, [], ◌∷◌,
  ◌++◌, Text, leb, ltb, if◌then◌else◌, or_else, is_some, length, any, ◌≡◌, refl, ◌⊎◌, inl, inr,
}
pub use onekey_balance_kit.Errors.{ErrorCode, cache_get_failed, cache_set_failed}

-- A call of the libraries: it returns or throws.
pub data Reply {ℓ} (A : Type ℓ) : Type ℓ where
  returned : A → Reply A
  threw : Reply A

pub Reply-cases {ℓ} : {A : Type ℓ} (r : Reply A) → (r ≡ threw) ⊎ ((a : A) × (r ≡ returned a))
Reply-cases threw = inl refl
Reply-cases (returned a) = inr (a, refl)

pub record Manager (S V : Type 0) : Type 0 where
  pub fetch : Text → S → Reply (Option V)
  pub put : Text → V → ℕ → S → Reply S
  pub remove : Text → S → Reply S

-- What the service's methods give: a value, or an `ApplicationException`.
pub data Result {ℓ} (A : Type ℓ) : Type ℓ where
  ok : A → Result A
  err : ErrorCode → Result A

abbrev or_throw {ℓ} : {A : Type ℓ} → ErrorCode → Reply A → Result A
or_throw e (returned a) = ok a
or_throw e threw = err e

-- A cached store as the service looks into it: the six paths at which a client may stand, or a store
-- that throws when it is looked into.
pub data StoreView (C : Type 0) : Type 0 where
  paths :
      (opts_redis store_redis opts_client_ store_client_ opts_client store_client : Option C)
      → StoreView C
  faulty : StoreView C

abbrev pub or_next {ℓ} : {A : Type ℓ} → Option A → Option A → Option A
or_next none b = b
or_next (some a) b = some a

pub record CacheManager (C : Type 0) : Type 0 where
  pub is_redis_store : Option Bool
  pub stores : List (StoreView C)

pub record CacheService (C : Type 0) : Type 0 where
  pub default_ttl : ℕ
  pub is_using_redis : Bool
  pub redis_client : Option C

module _ {C : Type 0} where
  abbrev pub store_client : StoreView C → Option C
  store_client (paths a b c d e f) = or_next a (or_next b (or_next c (or_next d (or_next e f))))
  store_client faulty = none

  unfoldable pub get_native_redis_client : List (StoreView C) → Option C
  get_native_redis_client [] = none
  get_native_redis_client (s ∷ ss) = or_next (store_client s) (get_native_redis_client ss)

  unfoldable pub detect_redis_store : Option (CacheManager C) → Bool
  detect_redis_store none = false
  detect_redis_store (some m) = elim m.is_redis_store [
    | some flag ↦ flag
    | none ↦ any (λ s. is_some (store_client s)) m.stores
  ]

  -- The constructor: no client is looked for before the first use.
  unfoldable pub create_service : ℕ → Option (CacheManager C) → CacheService C
  create_service ttl m = record {
    default_ttl = ttl;
    is_using_redis = detect_redis_store m;
    redis_client = none;
  }

  unfoldable pub ensure_connection : List (StoreView C) → CacheService C → Bool × CacheService C
  ensure_connection stores s =
      if s.is_using_redis
      then elim s.redis_client [
        | some c ↦ (true, s)
        | none ↦
            let found = get_native_redis_client stores in
            (is_some found, record s { redis_client = found })
      ]
      else (false, s)

-- `get`, `set` and `delete`, with the TTL in milliseconds; a failed deletion throws the code of a
-- failed write.
module _ {S V : Type 0} (m : Manager S V) where
  unfoldable pub cache_get : Text → S → Result (Option V)
  cache_get key s = or_throw cache_get_failed (m.fetch key s)

  unfoldable pub cache_set : ℕ → Text → V → Option ℕ → S → Result S
  cache_set default_ttl key v ttl s =
      or_throw cache_set_failed (m.put key v (or_else ttl default_ttl * 1000) s)

  unfoldable pub cache_delete : Text → S → Result S
  cache_delete key s = or_throw cache_set_failed (m.remove key s)

-- The variables of the loop of `deleteByPattern`; `sent` has the batches that were executed.
pub record Sweep : Type 0 where
  pub batch : List Text
  pub counter : ℕ
  pub total : ℕ
  pub sent : List (List Text)

abbrev pub start_sweep : Sweep
start_sweep = record { batch = []; counter = 0; total = 0; sent = [] }

abbrev pub batch_limit : ℕ
batch_limit = 500

abbrev add_key : Text → Sweep → Sweep
add_key key w = record w {
  batch = w.batch ++ key ∷ [];
  counter = w.counter + 1;
  total = w.total + 1;
}

-- `await batch.exec(); batch = redis.multi(); counter = 0`.
unfoldable pub exec_batch : (ℕ → Bool) → Sweep → Option Sweep
exec_batch exec_ok w =
    if exec_ok (length w.sent)
    then some (record w { batch = []; counter = 0; sent = w.sent ++ w.batch ∷ [] })
    else none

-- One round of the loop; `none` where the batch is refused.
unfoldable pub sweep_key : (ℕ → Bool) → Text → Sweep → Option Sweep
unfolding exec_batch
sweep_key exec_ok key w =
    if leb batch_limit (add_key key w).counter
    then exec_batch exec_ok (add_key key w)
    else some (add_key key w)

-- The loop and the last batch: the state that is reached, and whether no call threw.
unfoldable pub sweep_keys : (ℕ → Bool) → Bool → List Text → Sweep → Sweep × Bool
unfolding sweep_key
sweep_keys exec_ok scan_ok [] w =
    if scan_ok
    then (if ltb 0 w.counter
        then elim (exec_batch exec_ok w) [ none ↦ (w, false) | some v ↦ (v, true) ]
        else (w, true))
    else (w, false)
sweep_keys exec_ok scan_ok (key ∷ keys) w = elim (sweep_key exec_ok key w) [
  | none ↦ (add_key key w, false)
  | some v ↦ sweep_keys exec_ok scan_ok keys v
]

pub record Purge (C : Type 0) : Type 0 where
  pub service : CacheService C
  pub count : ℕ
  pub batches : List (List Text)

unfoldable pub delete_by_pattern :
    {C : Type 0} → List (StoreView C) → (ℕ → Bool) → Bool → List Text → CacheService C → Purge C
unfolding sweep_keys ensure_connection
delete_by_pattern stores exec_ok scan_ok keys s =
    let (connected, s') = ensure_connection stores s in
    let (w, finished) = sweep_keys exec_ok scan_ok keys start_sweep in
    if connected
    then record { service = s'; count = if finished then w.total else 0; batches = w.sent }
    else record { service = s'; count = 0; batches = [] }
