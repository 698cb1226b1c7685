-- ===== src/PortfolioCache/Tests.antt =====
-- The theorem on core/cache/portfolio-cache.listener.ts at an example: a cache that is a map.
use onekey_balance_kit.Base.{
  ℕ, ◌≡◌, ◌⊎◌, refl, none, some, [], ◌∷◌, ◌++◌, ◌*◌, codes, Map, get, set, get-set, get-set_self,
  text_beq_iff, arith,
}
use onekey_balance_kit.Cache.{returned, threw, Manager}
use onekey_balance_kit.CacheKey.{create_portfolio_key}
use onekey_balance_kit.Chains.{ethereum, polygon}
use onekey_balance_kit.Notification.{portfolio_redis_updated}
use onekey_balance_kit.PortfolioCache.Written.{Stores, handle_portfolio_update_cases}
use onekey_balance_kit.PortfolioCache.{
  PortfolioUpdateEvent, mongo_ttl_seconds, event_key, handle_portfolio_update,
}

-- A cache that is a map.
abbrev pub map_manager : {V : Type 0} → Manager (Map V) V
map_manager = record {
  fetch = λ k s. returned (get k s);
  put = λ k v ttl s. returned (set k v s);
  remove = λ k s. returned s;
}

pub map_manager-Stores : {V : Type 0} → Stores (map_manager {V = V})
map_manager-Stores = record {
  fetch-put = λ key v ttl s s' e. ground (arith, get-set_self key v s, e);
  fetch-put_other = λ key other v ttl s s' differs e.
      ground (arith, get-set key other v s, text_beq_iff key other, e);
}

abbrev store : Manager (Map ℕ) ℕ
store = map_manager

abbrev update : PortfolioUpdateEvent ℕ
update = record {
  chain = ethereum;
  chain_id = 1;
  address = codes "0xa";
  portfolio_data = 42;
  provider = none;
  ttl_seconds = some 60;
}

handle_portfolio_update_cases_example :
    let (s', out') = handle_portfolio_update store 300 update ([], []) in
    ((store.put (event_key update) 42 (60 * 1000) [] ≡ threw) × (s' ≡ []) × (out' ≡ []))
    ⊎ ((out'
          ≡ []
            ++ portfolio_redis_updated ethereum 1 (codes "0xa") 42 none (some mongo_ttl_seconds)
              ∷ [])
        × (store.fetch (event_key update) s' ≡ returned (some 42))
        × (store.fetch (create_portfolio_key polygon (codes "0xa") none) s'
            ≡ store.fetch (create_portfolio_key polygon (codes "0xa") none) []))
handle_portfolio_update_cases_example =
    handle_portfolio_update_cases store 300 update [] [] polygon (codes "0xa") none
      map_manager-Stores (refl, omega arith) (refl, omega arith) (λ same. ground (arith, same))
