-- ===== src/Sse.antt =====
-- core/sse/sse-subscription.service.ts: the history of events, the clients and their streams.
-- A subject that fires is an entry of `signals`; an event that the emitter passes on is an entry of
-- `broadcast`. RxJS and the emitter are not under src: RxJS runs the teardown of a stream, and that
-- run is an operation of its own here. Times and event identifiers are arguments.
pub mod Subscription
pub mod History
pub mod Clients
pub mod Invariant
pub mod Replay
pub mod Tests
use onekey_balance_kit.Base.{
  ℕ, zero, suc, ◌+◌, Bool, true, false, ◌&&◌, ◌||◌, not, Option, none, some, List, [], ◌∷◌, ◌++◌,
  map, Text, codes, truthy, given, text_beq, ltb, if◌then◌else◌, is_some, length, drop, keep_if,
  Map, get, set, delete, has,
}
use onekey_balance_kit.Chains.{ChainName}
use onekey_balance_kit.Notification.{AddressCacheInvalidatedEvent}
use Subscription.{
  AddressSubscription, Metadata, CacheInvalidateEvent, EventData, matches_subscription,
  matches_subscription_message, event_data,
}

abbrev pub max_stored_events : ℕ
max_stored_events = 100

abbrev pub client_timeout : ℕ
client_timeout = 30000

-- The `data` of a message: an event's fields as JSON, or the text of an error.
pub data Payload : Type 0 where
  json : EventData → Payload
  notice : Text → Payload

pub record MessageEvent : Type 0 where
  pub payload : Payload
  pub id : Option Text

unfoldable pub format_cache_event : CacheInvalidateEvent → MessageEvent
format_cache_event event = record { payload = json (event_data event); id = some event.id }

pub record ClientConnection : Type 0 where
  pub id : Text
  pub last_active : ℕ
  pub is_active : Bool
  pub subscription : Option AddressSubscription

pub record SseService : Type 0 where
  pub recent_events : List CacheInvalidateEvent
  pub opened : ℕ
  pub closed : ℕ
  pub clients : Map ClientConnection
  pub signals : List Text
  pub broadcast : List MessageEvent

-- `activeConnections` is `opened - closed`; each increment and each decrement is counted apart.
abbrev pub initial : SseService
initial = record {
  recent_events = [];
  opened = 0;
  closed = 0;
  clients = [];
  signals = [];
  broadcast = [];
}

unfoldable pub store_event :
    CacheInvalidateEvent → List CacheInvalidateEvent → List CacheInvalidateEvent
store_event event events =
    let pushed = events ++ event ∷ [] in
    if ltb max_stored_events (length pushed) then drop 1 pushed else pushed

-- `findIndex` and `slice`: all that is stored, if the identifier is not found.
unfoldable pub after_event : Text → List CacheInvalidateEvent → Option (List CacheInvalidateEvent)
after_event id [] = none
after_event id (e ∷ es) = if text_beq e.id id then some es else after_event id es

unfoldable pub get_events_since : Text → List CacheInvalidateEvent → List CacheInvalidateEvent
unfolding after_event
get_events_since id events = elim (after_event id events) [ none ↦ events | some later ↦ later ]

-- The client object in the map becomes inactive.
abbrev pub deactivated : Text → Map ClientConnection → Map ClientConnection
deactivated id clients = elim (get id clients) [
  | none ↦ clients
  | some c ↦ set id (record c { is_active = false }) clients
]

-- The client becomes inactive, its subject fires, and it is taken off the map.
abbrev pub drop_client : Text → SseService → SseService
drop_client id s = record s {
  clients = delete id (deactivated id s.clients);
  signals = s.signals ++ id ∷ [];
}

unfoldable pub unregister_client : Text → SseService → SseService
unregister_client id s = elim (get id s.clients) [
  | none ↦ s
  | some c ↦ if c.is_active then drop_client id s else s
]

unfoldable pub register_client : Text → Option AddressSubscription → ℕ → SseService → SseService
unfolding unregister_client
register_client id subscription now s =
    let fresh = if has id s.clients then unregister_client id s else s in
    record fresh {
      clients =
          set id
            (record { id = id; last_active = now; is_active = true; subscription = subscription })
            fresh.clients;
    }

unfoldable pub update_client_activity : Text → ℕ → SseService → SseService
update_client_activity id now s = elim (get id s.clients) [
  | none ↦ s
  | some c ↦
      if c.is_active
      then record s { clients = set id (record c { last_active = now }) s.clients }
      else s
]

abbrev pub is_timed_out : ℕ → ClientConnection → Bool
is_timed_out now c = c.is_active && ltb (c.last_active + client_timeout) now

-- The loop over the entries; each that has timed out is deleted.
unfoldable pub drop_timed_out : ℕ → Map ClientConnection → SseService → SseService
drop_timed_out now [] s = s
drop_timed_out now ((id, c) ∷ entries) s =
    drop_timed_out now entries (if is_timed_out now c then drop_client id s else s)

unfoldable pub check_client_timeouts : ℕ → SseService → SseService
unfolding drop_timed_out
check_client_timeouts now s = drop_timed_out now s.clients s

-- The listener of the INVALIDATE event stores the event, and the shared stream passes it on.
unfoldable pub handle_cache_invalidation : CacheInvalidateEvent → SseService → SseService
unfolding store_event format_cache_event
handle_cache_invalidation event s = record s {
  recent_events = store_event event s.recent_events;
  broadcast = s.broadcast ++ format_cache_event event ∷ [];
}

unfoldable pub publish_cache_invalidation :
    Text → Option Text → Option Metadata → ℕ → Text → SseService → SseService
unfolding handle_cache_invalidation
publish_cache_invalidation key pattern metadata now uuid s =
    let event : CacheInvalidateEvent = record {
      key = key;
      pattern = pattern;
      timestamp = now;
      id = codes "c-" ++ uuid;
      metadata = metadata;
    } in
    handle_cache_invalidation event (record s { recent_events = store_event event s.recent_events })

unfoldable pub handle_address_cache_invalidated :
    AddressCacheInvalidatedEvent → ℕ → Text → SseService → SseService
unfolding publish_cache_invalidation
handle_address_cache_invalidated e now uuid s =
    publish_cache_invalidation e.cache_key (some e.cache_pattern)
      (some (record { chain = some e.chain; chain_id = some e.chain_id; address = some e.address }))
      now uuid s

-- What `getEventStream` and `getFilteredEventStream` return: an error, or the replayed messages with
-- the condition under which a later message is passed on.
pub data EventStream : Type 0 where
  failed : EventStream
  stream : List MessageEvent → Option AddressSubscription → EventStream

unfoldable pub live_message : Option AddressSubscription → MessageEvent → Bool
live_message none message = true
live_message (some subscription) message = elim message.payload [
  | json d ↦ matches_subscription_message d subscription
  | notice text ↦ false
]

abbrev pub replay_events :
    Option Text → (CacheInvalidateEvent → Bool) → SseService → List MessageEvent
replay_events last_event_id passes s = elim last_event_id [
  | none ↦ []
  | some id ↦
      if truthy id
      then map format_cache_event (keep_if passes (get_events_since id s.recent_events))
      else []
]

unfoldable pub open_stream :
    Text → List MessageEvent → Option AddressSubscription → SseService → EventStream
open_stream id replay subscription s = elim (get id s.clients) [
  | none ↦ failed
  | some c ↦ stream replay subscription
]

unfoldable pub get_event_stream : Text → Option Text → ℕ → SseService → SseService × EventStream
get_event_stream id last_event_id now s =
    let registered = register_client id none now s in
    let s' = record registered { opened = registered.opened + 1 } in
    (s', open_stream id (replay_events last_event_id (λ _. true) s') none s')

unfoldable pub get_filtered_event_stream :
    Text → AddressSubscription → Option Text → ℕ → SseService → SseService × EventStream
get_filtered_event_stream id subscription last_event_id now s =
    let registered = register_client id (some subscription) now s in
    let s' = record registered { opened = registered.opened + 1 } in
    (
      s',
      open_stream id (replay_events last_event_id (λ e. matches_subscription e subscription) s')
          (some subscription) s',
    )

-- The teardown of a stream, which RxJS runs when the stream ends.
unfoldable pub teardown : Text → SseService → SseService
unfolding unregister_client
teardown id s = let s' = unregister_client id s in record s' { closed = s'.closed + 1 }

active_ids : Map ClientConnection → List Text
active_ids [] = []
active_ids ((id, c) ∷ entries) = if c.is_active then id ∷ active_ids entries else active_ids entries

unfoldable pub on_module_destroy : SseService → SseService
unfolding active_ids
on_module_destroy s = record s { clients = []; signals = s.signals ++ active_ids s.clients }
