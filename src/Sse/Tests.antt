-- ===== src/Sse/Tests.antt =====
-- Runs of the model of core/sse/sse-subscription.service.ts, and its theorems at examples.
use onekey_balance_kit.Base.{
  ℕ, ◌≡◌, refl, none, some, List, [], ◌∷◌, Text, codes, arith, delete, get, set,
}
use onekey_balance_kit.Chains.{ethereum}
use onekey_balance_kit.Sse.Subscription.{
  AddressSubscription, CacheInvalidateEvent, event_data, matches_subscription,
  matches_subscription_message,
}
use onekey_balance_kit.Sse.History.{latest, store_all, store_all-eq-latest}
use onekey_balance_kit.Sse.Clients.{ids, fresh_client}
use onekey_balance_kit.Sse.Replay.{address_event, replay_agrees_with_live}
use onekey_balance_kit.Sse.Invariant.{
  Call, registers, ticks, publishes, filters, run, IsValid, run-IsValid,
}
use onekey_balance_kit.Sse.{SseService, initial, check_client_timeouts}

abbrev watch_ethereum : AddressSubscription
watch_ethereum = record {
  chain = some ethereum;
  chain_id = none;
  address = some (codes "0xa");
  pattern = none;
}

abbrev calls : List (Call × ℕ)
calls =
    (registers (codes "one") none, 1000)
    ∷ (filters (codes "two") watch_ethereum none, 20000)
    ∷ (publishes (codes "portfolio:ethereum:1:0xa") none none (codes "u"), 25000)
    ∷ (ticks, 40000)
    ∷ []

run-IsValid_example : IsValid (run calls initial)
run-IsValid_example = run-IsValid calls

abbrev event : Text → Text → CacheInvalidateEvent
event id key = record { key = key; pattern = none; timestamp = 5; id = id; metadata = none }

abbrev e1 : CacheInvalidateEvent
e1 = event (codes "c-1") (codes "portfolio:ethereum:1:0xa")

abbrev e2 : CacheInvalidateEvent
e2 = event (codes "c-2") (codes "portfolio:polygon:137:0xb")

abbrev e3 : CacheInvalidateEvent
e3 = event (codes "c-3") (codes "portfolio:ethereum:1:0xc")

store_all-eq-latest_example : store_all (e1 ∷ e2 ∷ []) [] ≡ latest (e1 ∷ e2 ∷ [])
store_all-eq-latest_example = store_all-eq-latest (e1 ∷ e2 ∷ [])

abbrev two_clients : SseService
two_clients = record initial {
  clients =
      (codes "old", fresh_client (codes "old") none 100)
      ∷ (codes "new", fresh_client (codes "new") (some watch_ethereum) 20000)
      ∷ [];
}

timeouts_run : ids (check_client_timeouts 40000 two_clients).clients ≡ codes "new" ∷ []
unfolding check_client_timeouts delete get set
timeouts_run = refl

abbrev three_events : SseService
three_events = record two_clients { recent_events = e1 ∷ e2 ∷ e3 ∷ [] }

replay_agrees_with_live_example :
    matches_subscription (address_event ethereum 1 (codes "0xa") 8 (codes "u")) watch_ethereum
    ≡ matches_subscription_message
        (event_data (address_event ethereum 1 (codes "0xa") 8 (codes "u")))
        watch_ethereum
replay_agrees_with_live_example =
    replay_agrees_with_live ethereum 1 (codes "0xa") 8 (codes "u") watch_ethereum (omega arith)
