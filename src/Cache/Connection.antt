-- ===== src/Cache/Connection.antt =====
-- How core/cache/cache.service.ts finds out that it uses Redis, and finds the client.
use onekey_balance_kit.Base.{
  ◌≡◌, refl, Option, none, some, List, [], ◌∷◌, is_some, any, arith, ◌||◌, ℕ,
}
use onekey_balance_kit.Cache.{
  StoreView, store_client, or_next, get_native_redis_client, detect_redis_store, create_service,
  ensure_connection,
}

module _ {C : Type 0} where
  is_some-or_next : (a b : Option C) → is_some (or_next a b) ≡ (is_some a || is_some b)
  is_some-or_next none b = refl
  is_some-or_next (some a) b = refl

  native-any :
      (ss : List (StoreView C))
      → is_some (get_native_redis_client ss) ≡ any (λ s. is_some (store_client s)) ss
  unfolding get_native_redis_client
  native-any [] = refl
  native-any (s ∷ ss) =
      rw (is_some-or_next (store_client s) (get_native_redis_client ss), native-any ss)

-- Where the module sets no flag, the service takes the cache for Redis exactly when the first use
-- will find a client; so its first `ensureConnection` answers what the constructor detected, and a
-- later one gives the same answer and keeps the client.
pub ensure_connection-create_service :
    {C : Type 0} (ttl : ℕ) (stores : List (StoreView C))
    → let s = create_service ttl (some (record { is_redis_store = none; stores = stores })) in
      ((ensure_connection stores s).0 ≡ s.is_using_redis)
      × (ensure_connection stores (ensure_connection stores s).1 ≡ ensure_connection stores s)
unfolding ensure_connection create_service detect_redis_store
ensure_connection-create_service ttl stores = ground (arith, native-any stores)
