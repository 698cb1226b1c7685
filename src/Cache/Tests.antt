-- ===== src/Cache/Tests.antt =====
-- Runs of the model of core/cache/cache.service.ts, and its theorems at examples.
use onekey_balance_kit.Base.{ℕ, true, false, none, some, List, [], ◌∷◌, Text, codes}
use onekey_balance_kit.Cache.Deletion.{IsPurged, delete_by_pattern-IsPurged}
use onekey_balance_kit.Cache.Lifecycle.{RedisClient}
use onekey_balance_kit.Cache.{
  returned, StoreView, paths, faulty, CacheService, create_service, delete_by_pattern,
}

-- One store that throws, and one whose client stands at the third path.
abbrev stores : List (StoreView ℕ)
stores = faulty ∷ paths none none (some 7) none none none ∷ []

abbrev service : CacheService ℕ
service = create_service 60 (some (record { is_redis_store = none; stores = stores }))

abbrev keys : List Text
keys = codes "a" ∷ codes "b" ∷ codes "c" ∷ []

delete_by_pattern-IsPurged_example :
    IsPurged keys
      (delete_by_pattern stores (λ _. true) false keys service).count
      (delete_by_pattern stores (λ _. true) false keys service).batches
delete_by_pattern-IsPurged_example =
    delete_by_pattern-IsPurged stores (λ _. true) false keys service

-- A client whose store is the list of its keys.
abbrev client : RedisClient ℕ (List Text)
client = record { is_open = λ c. true; ping = λ c. returned true; flush_db = λ c s. returned [] }
