-- ===== src/Sse/Invariant.antt =====
-- What holds of the state of core/sse/sse-subscription.service.ts after any calls, in any order.
use onekey_balance_kit.Base.{
  ℕ, ◌≤◌, ◌≡◌, refl, Bool, true, false, Option, none, some, List, [], ◌∷◌, Text, if◌then◌else◌, has,
  length, Map, get, set, IsUnique, set-IsUnique, delete-IsUnique, set-All, delete-All, get-All, All,
  arith, Bool-cases, Option-cases, inl, inr,
}
use onekey_balance_kit.Notification.{AddressCacheInvalidatedEvent}
use onekey_balance_kit.Sse.Subscription.{AddressSubscription, Metadata, CacheInvalidateEvent}
use onekey_balance_kit.Sse.History.{store_event-le}
use onekey_balance_kit.Sse.Clients.{fresh_client, delete-deactivated}
use onekey_balance_kit.Sse.{
  max_stored_events, ClientConnection, SseService, initial, is_timed_out, drop_client,
  drop_timed_out, check_client_timeouts, register_client, unregister_client, update_client_activity,
  handle_cache_invalidation, publish_cache_invalidation, handle_address_cache_invalidated,
  get_event_stream, get_filtered_event_stream, teardown, on_module_destroy,
}

-- An entry of the map is active, and stands under its own identifier.
abbrev pub IsLive : Text × ClientConnection → Type 0
IsLive (id, c) = (c.is_active ≡ true) × (c.id ≡ id)

pub record IsValid (s : SseService) : Type 0 where
  pub bounded : length s.recent_events ≤ max_stored_events
  pub unique : IsUnique s.clients
  pub live : All IsLive s.clients

pub initial-IsValid : IsValid initial
initial-IsValid = record { bounded = omega arith; unique = tt; live = tt }

drop_client-IsValid : (id : Text) (s : SseService) → IsValid s → IsValid (drop_client id s)
drop_client-IsValid id s v = record {
  bounded = v.bounded;
  unique = rw (delete-deactivated id s.clients) (delete-IsUnique id s.clients v.unique);
  live = rw (delete-deactivated id s.clients) (delete-All IsLive id s.clients v.live);
}

unregister_client-IsValid :
    (id : Text) (s : SseService) → IsValid s → IsValid (unregister_client id s)
unfolding unregister_client
unregister_client-IsValid id s v = elim (Option-cases (get id s.clients)) [
  | inl absent ↦ rw (absent, unregister_client) v
  | inr (c, found) ↦
      let active : c.is_active ≡ true = (get-All IsLive id c s.clients v.live found).0 in
      rw (found, unregister_client, active) (drop_client-IsValid id s v)
]

set-IsValid :
    (id : Text) (c : ClientConnection) (s : SseService)
    → IsLive (id, c)
    → IsValid s
    → IsValid (record s { clients = set id c s.clients })
set-IsValid id c s h v = record {
  bounded = v.bounded;
  unique = set-IsUnique id c s.clients v.unique;
  live = set-All IsLive id c s.clients h v.live;
}

register_client-IsValid :
    (id : Text) (subscription : Option AddressSubscription) (now : ℕ) (s : SseService)
    → IsValid s
    → IsValid (register_client id subscription now s)
unfolding register_client
register_client-IsValid id subscription now s v = elim (Bool-cases (has id s.clients)) [
  | inl present ↦ rw present (
      set-IsValid id (fresh_client id subscription now) (unregister_client id s) (refl, refl)
        (unregister_client-IsValid id s v))
  | inr absent ↦ rw absent (set-IsValid id (fresh_client id subscription now) s (refl, refl) v)
]

update_client_activity-IsValid :
    (id : Text) (now : ℕ) (s : SseService) → IsValid s → IsValid (update_client_activity id now s)
unfolding update_client_activity
update_client_activity-IsValid id now s v = elim (Option-cases (get id s.clients)) [
  | inl absent ↦ rw (absent, update_client_activity) v
  | inr (c, found) ↦
      let live : IsLive (id, c) = get-All IsLive id c s.clients v.live found in
      rw (found, update_client_activity) (chosen c live c.is_active)
]
  where
    chosen :
        (c : ClientConnection)
        → IsLive (id, c)
        → (b : Bool)
        → IsValid (
            if b
            then record s { clients = set id (record c { last_active = now }) s.clients }
            else s)
    chosen c live true = set-IsValid id (record c { last_active = now }) s live v
    chosen c live false = v

drop_timed_out-IsValid :
    (now : ℕ) (entries : Map ClientConnection) (s : SseService)
    → IsValid s
    → IsValid (drop_timed_out now entries s)
unfolding drop_timed_out
drop_timed_out-IsValid now [] s v = v
drop_timed_out-IsValid now ((id, c) ∷ entries) s v =
    drop_timed_out-IsValid now entries (if is_timed_out now c then drop_client id s else s)
      (chosen (is_timed_out now c))
  where
    chosen : (b : Bool) → IsValid (if b then drop_client id s else s)
    chosen true = drop_client-IsValid id s v
    chosen false = v

handle_cache_invalidation-IsValid :
    (e : CacheInvalidateEvent) (s : SseService)
    → IsValid s
    → IsValid (handle_cache_invalidation e s)
unfolding handle_cache_invalidation
handle_cache_invalidation-IsValid e s v = record {
  bounded = store_event-le e s.recent_events v.bounded;
  unique = v.unique;
  live = v.live;
}

publish_cache_invalidation-IsValid :
    (key : Text) (pattern : Option Text) (metadata : Option Metadata) (now : ℕ) (uuid : Text)
    (s : SseService)
    → IsValid s
    → IsValid (publish_cache_invalidation key pattern metadata now uuid s)
unfolding publish_cache_invalidation
publish_cache_invalidation-IsValid key pattern metadata now uuid s v =
    handle_cache_invalidation-IsValid _ _ (record {
      bounded = store_event-le _ s.recent_events v.bounded;
      unique = v.unique;
      live = v.live;
    })

-- The calls that reach the service: from its controllers, the emitter, the timer and RxJS.
pub data Call : Type 0 where
  registers : Text → Option AddressSubscription → Call
  unregisters touches ends : Text → Call
  ticks destroys : Call
  publishes : Text → Option Text → Option Metadata → Text → Call
  hears : CacheInvalidateEvent → Call
  invalidates : AddressCacheInvalidatedEvent → Text → Call
  streams : Text → Option Text → Call
  filters : Text → AddressSubscription → Option Text → Call

pub step : Call → ℕ → SseService → SseService
step (registers id subscription) now s = register_client id subscription now s
step (unregisters id) now s = unregister_client id s
step (touches id) now s = update_client_activity id now s
step (ends id) now s = teardown id s
step ticks now s = check_client_timeouts now s
step destroys now s = on_module_destroy s
step (publishes key pattern metadata uuid) now s =
    publish_cache_invalidation key pattern metadata now uuid s
step (hears e) now s = handle_cache_invalidation e s
step (invalidates e uuid) now s = handle_address_cache_invalidated e now uuid s
step (streams id last) now s = (get_event_stream id last now s).0
step (filters id subscription last) now s = (get_filtered_event_stream id subscription last now s).0

pub run : List (Call × ℕ) → SseService → SseService
run [] s = s
run ((c, now) ∷ cs) s = run cs (step c now s)

-- The counters take no part in the invariant.
counted-IsValid :
    (m n : ℕ) (s : SseService) → IsValid s → IsValid (record s { opened = m; closed = n })
counted-IsValid m n s v = record { bounded = v.bounded; unique = v.unique; live = v.live }

pub step-IsValid : (c : Call) (now : ℕ) (s : SseService) → IsValid s → IsValid (step c now s)
unfolding step teardown check_client_timeouts on_module_destroy handle_address_cache_invalidated
    get_event_stream get_filtered_event_stream
step-IsValid (registers id subscription) now s v = register_client-IsValid id subscription now s v
step-IsValid (unregisters id) now s v = unregister_client-IsValid id s v
step-IsValid (touches id) now s v = update_client_activity-IsValid id now s v
step-IsValid (ends id) now s v = counted-IsValid _ _ _ (unregister_client-IsValid id s v)
step-IsValid ticks now s v = drop_timed_out-IsValid now s.clients s v
step-IsValid destroys now s v = record { bounded = v.bounded; unique = tt; live = tt }
step-IsValid (publishes key pattern metadata uuid) now s v =
    publish_cache_invalidation-IsValid key pattern metadata now uuid s v
step-IsValid (hears e) now s v = handle_cache_invalidation-IsValid e s v
step-IsValid (invalidates e uuid) now s v = publish_cache_invalidation-IsValid _ _ _ now uuid s v
step-IsValid (streams id last) now s v =
    counted-IsValid _ _ _ (register_client-IsValid id none now s v)
step-IsValid (filters id subscription last) now s v =
    counted-IsValid _ _ _ (register_client-IsValid id (some subscription) now s v)

run_keeps-IsValid : (cs : List (Call × ℕ)) (s : SseService) → IsValid s → IsValid (run cs s)
unfolding run
run_keeps-IsValid [] s v = v
run_keeps-IsValid ((c, now) ∷ cs) s v = run_keeps-IsValid cs (step c now s) (step-IsValid c now s v)

-- After any calls to a new service, at any times: at most 100 events are stored, no two clients
-- share an identifier, and every client in the map is active and stands under its own identifier.
pub run-IsValid : (cs : List (Call × ℕ)) → IsValid (run cs initial)
run-IsValid cs = run_keeps-IsValid cs initial initial-IsValid
