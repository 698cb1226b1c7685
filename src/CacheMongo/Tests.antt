-- ===== src/CacheMongo/Tests.antt =====
-- The theorems on core/cache/cache-mongo.service.ts at examples.
use onekey_balance_kit.Base.{
  ℕ, ◌≡◌, ◌⊎◌, refl, true, none, some, List, [], ◌∷◌, ◌++◌, codes, Map, arith,
}
use onekey_balance_kit.Cache.{
  get_native_redis_client, ensure_connection, returned, threw, Manager, StoreView, paths,
  CacheService, Purge,
}
use onekey_balance_kit.Cache.Batches.{concat}
use onekey_balance_kit.CacheKey.Tests.{glob_match}
use onekey_balance_kit.CacheKey.{create_portfolio_key}
use onekey_balance_kit.CacheMongo.Invalidated.{
  MatchesOnlyItself, handle_address_activity-invalidates,
}
use onekey_balance_kit.CacheMongo.Read.{IsRead, get_portfolio_data-IsRead}
use onekey_balance_kit.CacheMongo.RoundTrip.{read_back, response_of-save_portfolio_snapshot}
use onekey_balance_kit.CacheMongo.{
  response_of, get_portfolio_data, AddressActivityEvent, handle_address_activity,
}
use onekey_balance_kit.Chains.{ethereum}
use onekey_balance_kit.Db.Store.{write_first, snapshot_store, snapshot_store-IsMongo}
use onekey_balance_kit.Db.Tests.{response, snapshot}
use onekey_balance_kit.Db.{
  invalidate_address_snapshot, transform_portfolio_data, save_portfolio_snapshot,
  get_portfolio_snapshot,
}
use onekey_balance_kit.Notification.{Emitted, address_cache_invalidated, address_cache_event}
use onekey_balance_kit.Portfolio.{BalanceResponse}
use onekey_balance_kit.PortfolioCache.Tests.{map_manager, map_manager-Stores}

abbrev manager : Manager (Map (BalanceResponse ℕ)) (BalanceResponse ℕ)
manager = map_manager

get_portfolio_data-IsRead_example :
    let r =
      get_portfolio_data manager 300 snapshot_store ethereum 1
        (codes "0xa")
        none
        none
        900
        (snapshot ∷ [])
        [] in
    IsRead manager 300 snapshot_store
      (create_portfolio_key ethereum (codes "0xa") none)
      900
      (get_portfolio_snapshot snapshot_store 1 (codes "0xa") none 900 (snapshot ∷ []))
      []
      r.0
      r.1
get_portfolio_data-IsRead_example =
    get_portfolio_data-IsRead manager 300 snapshot_store ethereum 1 (codes "0xa") none none 900
      (snapshot ∷ []) [] map_manager-Stores

response_of-save_portfolio_snapshot_example :
    response_of 900 snapshot ≡ returned (read_back 900 response)
unfolding save_portfolio_snapshot write_first transform_portfolio_data
response_of-save_portfolio_snapshot_example =
    response_of-save_portfolio_snapshot snapshot_store (λ d. d) ethereum 1 (codes "0xa") response
      none (some 1) 805 806 900 [] snapshot snapshot_store-IsMongo refl

abbrev event : AddressActivityEvent
event = record { chain = ethereum; chain_id = 1; address = codes "0xa"; action = none }

abbrev no_events : Emitted ℕ
no_events = []

abbrev client : List (StoreView ℕ)
client = paths (some 1) none none none none none ∷ []

abbrev cache_service : CacheService ℕ
cache_service = record { default_ttl = 300; is_using_redis = true; redis_client = none }

handle_address_activity-invalidates_example :
    let (after, purged, out') =
      handle_address_activity client
        (λ k. true)
        true
        (λ pattern. codes "k" ∷ [])
        snapshot_store
        event
        900
        (snapshot ∷ [])
        cache_service
        no_events in
    let found = get_portfolio_snapshot snapshot_store 1 (codes "0xa") none 901 after in
    ((found ≡ threw) ⊎ (found ≡ returned none))
    × ((p : Purge ℕ) × (purged ≡ some p) × (concat p.batches ≡ codes "k" ∷ []))
    × (out'
        ≡ no_events
          ++ address_cache_invalidated (address_cache_event ethereum 1 (codes "0xa") 900) ∷ [])
unfolding invalidate_address_snapshot ensure_connection get_native_redis_client
handle_address_activity-invalidates_example =
    handle_address_activity-invalidates client (λ k. true) (λ pattern. codes "k" ∷ [])
      snapshot_store (λ d. d) event 900 901 0 (snapshot ∷ [])
      (record snapshot { expires_at = some 900 } ∷ []) cache_service no_events none
      snapshot_store-IsMongo ((λ h. refl), tt) refl refl (omega arith) refl (λ k. refl)

glob_match-only : MatchesOnlyItself glob_match
glob_match-only c p [] h m = absurd (ground (arith, m))
glob_match-only c p (d ∷ s) h m =
    let same : c ≡ d = ground (arith, m) in (s, ground (arith, same), ground (arith, m))
