-- ===== src/PortfolioMongo/Tests.antt =====
-- The theorems on the two portfolio listeners at examples.
use onekey_balance_kit.Base.{◌≡◌, get, ℕ, refl, none, some, List, [], ◌∷◌, codes, Map, Text, arith}
use onekey_balance_kit.Chains.{ethereum}
use onekey_balance_kit.Db.Store.{Snapshots, snapshot_store}
use onekey_balance_kit.Db.Tests.{response, snapshot}
use onekey_balance_kit.Portfolio.{as_data}
use onekey_balance_kit.PortfolioMongo.Alive.{run_requests, run_requests-attempted}
use onekey_balance_kit.PortfolioMongo.Throttle.{Request, IsSpaced, attempts-IsSpaced, after_request}
use onekey_balance_kit.PortfolioMongo.{
  PortfolioRedisUpdatedEvent, PortfolioMongoListener, Times, process_key, push_addresses,
  is_address_active, is_address_monitored,
}
use onekey_balance_kit.Webhook.Tests.{Account, account, store, config, idle}

abbrev listener : PortfolioMongoListener Account (Map Text) Snapshots
listener = record { processed_addresses = []; webhooks = idle; database = snapshot ∷ [] }

abbrev update : PortfolioRedisUpdatedEvent ℕ
update = record {
  chain = ethereum;
  chain_id = 1;
  address = codes "0xa";
  portfolio_data = as_data response;
  provider = none;
  mongo_ttl_seconds = some 1800;
}

abbrev requests : List Request
requests =
    record { chain = ethereum; address = codes "0xa"; now = 1000; checked = 1001 }
    ∷ record { chain = ethereum; address = codes "0xa"; now = 2000; checked = 2001 }
    ∷ record { chain = ethereum; address = codes "0xa"; now = 301000; checked = 301001 }
    ∷ []

attempts-IsSpaced_example :
    IsSpaced account store config snapshot_store (codes "ethereum:0xa") none requests listener
attempts-IsSpaced_example =
    attempts-IsSpaced account store config snapshot_store (codes "ethereum:0xa") requests listener
      (omega arith, (omega arith, (omega arith, tt)))

-- The clock goes on between the readings.
abbrev times : Times
times = record { saved_at = 900; written_at = 901; attempted_at = 902; checked_at = 903 }

-- A request for an address whose snapshot is unexpired and not marked.
abbrev late_request : Request
late_request = record { chain = ethereum; address = codes "0xa"; now = 601000; checked = 1 }

abbrev unmarked_listener : PortfolioMongoListener Account (Map Text) Snapshots
unmarked_listener = listener

run_requests-attempted_example :
    let before = run_requests account store config snapshot_store [] unmarked_listener in
    let after = after_request account store config snapshot_store late_request before in
    let added =
      push_addresses account store config snapshot_store ethereum (codes "0xa" ∷ []) [] 1 before in
    (after.webhooks ≡ added.webhooks)
    × (after.database ≡ added.database)
    × (get (process_key ethereum (codes "0xa")) after.processed_addresses ≡ some 601000)
unfolding get run_requests is_address_active is_address_monitored
run_requests-attempted_example =
    run_requests-attempted account store config snapshot_store 301000 [] late_request
      unmarked_listener (λ key u e. ground (arith, e)) tt (omega arith) refl refl refl
