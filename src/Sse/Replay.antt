-- ===== src/Sse/Replay.antt =====
-- What a client of core/sse/sse-subscription.service.ts is sent when it connects, and later.
use onekey_balance_kit.Base.{
  ℕ, ◌≡◌, refl, ap, ◌∙◌, true, ◌&&◌, Option, none, some, List, [], ◌∷◌, ◌++◌, Text, codes, text_beq,
  text_beq_iff, keep_if, map, get, get-set_self, arith, truthy, split, join, split-join,
  parse_int-show, show, show-Lacks, Lacks,
}
use onekey_balance_kit.Chains.{ChainName, value}
use onekey_balance_kit.CacheKey.RoundTrip.{value-Lacks}
use onekey_balance_kit.Notification.{address_cache_event, invalidated_key}
use onekey_balance_kit.Sse.Subscription.{
  AddressSubscription, Metadata, CacheInvalidateEvent, event_data, matches_subscription,
  matches_subscription_message, matches_parts, metadata_chain, has_chain, has_id, has_address,
  has_pattern,
}
use onekey_balance_kit.Sse.History.{
  IsNew, store_event_split, store_event_split_last, get_events_since_cases,
}
use onekey_balance_kit.Sse.{
  SseService, register_client, publish_cache_invalidation, get_event_stream,
  get_filtered_event_stream, stream, get_events_since, MessageEvent, format_cache_event,
  open_stream, ClientConnection,
}

get-register_self :
    (id : Text) (subscription : Option AddressSubscription) (now : ℕ) (s : SseService)
    → get id (register_client id subscription now s).clients
      ≡ some (record { id = id; last_active = now; is_active = true; subscription = subscription })
unfolding register_client
get-register_self id subscription now s = get-set_self id _ _

register-recent_events :
    (id : Text) (subscription : Option AddressSubscription) (now : ℕ) (s : SseService)
    → (register_client id subscription now s).recent_events ≡ s.recent_events
unfolding register_client
register-recent_events id subscription now s = ground arith

keep_if-all {ℓ} : {A : Type ℓ} (xs : List A) → keep_if (λ _. true) xs ≡ xs
keep_if-all [] = refl
keep_if-all (x ∷ xs) = ap (λ ys. x ∷ ys) (keep_if-all xs)

open_stream-some :
    (id : Text) (replay : List MessageEvent) (subscription : Option AddressSubscription)
    (s : SseService) (c : ClientConnection)
    → get id s.clients ≡ some c
    → open_stream id replay subscription s ≡ stream replay subscription
unfolding open_stream
open_stream-some id replay subscription s c e = rw (e, open_stream)

-- A stream is always opened, never an error: for a client that names the last event that it has
-- seen, the replay has the stored events after that one (all of them if it is not stored); a
-- filtered stream replays those that match its subscription, and keeps the subscription for later
-- messages.
pub streams_open :
    (id last : Text) (subscription : AddressSubscription) (now : ℕ) (s : SseService)
    → truthy last ≡ true
    → let since = get_events_since last s.recent_events in
      ((get_event_stream id (some last) now s).1 ≡ stream (map format_cache_event since) none)
      × ((get_filtered_event_stream id subscription (some last) now s).1
          ≡ stream
              (map format_cache_event (keep_if (λ e. matches_subscription e subscription) since))
              (some subscription))
unfolding get_event_stream get_filtered_event_stream
streams_open id last subscription now s h = (
  open_stream-some id _ none _ _ (get-register_self id none now s)
      ∙ rw (h, register-recent_events id none now s)
          (ap (λ es. stream (map format_cache_event es) none)
            (keep_if-all (get_events_since last s.recent_events))),
  open_stream-some id _ (some subscription) _ _ (get-register_self id (some subscription) now s)
      ∙ rw (h, register-recent_events id (some subscription) now s),
)

abbrev pub published : Text → Option Text → Option Metadata → ℕ → Text → CacheInvalidateEvent
published key pattern metadata now uuid = record {
  key = key;
  pattern = pattern;
  timestamp = now;
  id = codes "c-" ++ uuid;
  metadata = metadata;
}

-- A published event is stored twice: by the call and by the listener of the event that the call
-- emits. So where its identifier is new, a client that has seen it and reconnects with its
-- identifier is sent the same event again, and nothing else.
pub publish_replays_itself :
    (key : Text) (pattern : Option Text) (metadata : Option Metadata) (now : ℕ) (uuid : Text)
    (s : SseService)
    → IsNew (codes "c-" ++ uuid) s.recent_events
    → get_events_since
        (codes "c-" ++ uuid)
        (publish_cache_invalidation key pattern metadata now uuid s).recent_events
      ≡ published key pattern metadata now uuid ∷ []
unfolding publish_cache_invalidation
publish_replays_itself key pattern metadata now uuid s new =
    let id = codes "c-" ++ uuid in
    let e = published key pattern metadata now uuid in
    let (pre, once, new_pre) = store_event_split id e s.recent_events new in
    let (kept, twice, new_kept) = store_event_split_last id e e pre new_pre in
    rw (once, twice) (get_events_since_cases id kept e (e ∷ []) new_kept refl).1

text_beq_comm : (s t : Text) → text_beq s t ≡ text_beq t s
text_beq_comm s t = ground (arith, text_beq_iff s t, text_beq_iff t s)

metadata_chain-has_chain :
    (wanted : Option ChainName) (c : ChainName)
    → metadata_chain wanted (some c) ≡ has_chain wanted (value c)
metadata_chain-has_chain none c = refl
metadata_chain-has_chain (some w) c = text_beq_comm (value c) (value w)

invalidated_key-join :
    (c : ChainName) (n : ℕ) (a : Text)
    → invalidated_key c n a ≡ join b':' (codes "portfolio" ∷ value c ∷ show n ∷ a ∷ [])
unfolding invalidated_key join
invalidated_key-join c n a = refl

split-invalidated_key :
    (c : ChainName) (n : ℕ) (a : Text)
    → Lacks b':' a
    → split b':' (invalidated_key c n a) ≡ codes "portfolio" ∷ value c ∷ show n ∷ a ∷ []
split-invalidated_key c n a h = rw (invalidated_key-join c n a) (
    split-join b':' (codes "portfolio") (value c ∷ show n ∷ a ∷ [])
      (omega arith, (value-Lacks c, (show-Lacks n, (h, tt)))))

-- The event that `handle_address_cache_invalidated` publishes.
abbrev pub address_event : ChainName → ℕ → Text → ℕ → Text → CacheInvalidateEvent
address_event c n a now uuid =
    published (address_cache_event c n a now).cache_key
      (some (address_cache_event c n a now).cache_pattern)
      (some (record { chain = some c; chain_id = some n; address = some a })) now uuid

invalidated_key-truthy : (c : ChainName) (n : ℕ) (a : Text) → truthy (invalidated_key c n a) ≡ true
unfolding invalidated_key
invalidated_key-truthy c n a = refl

matches_parts-address :
    (c : ChainName) (n : ℕ) (a key : Text) (sub : AddressSubscription)
    → matches_parts (codes "portfolio" ∷ value c ∷ show n ∷ a ∷ []) key sub ≡ (
        has_chain sub.chain (value c)
        && (has_id sub.chain_id (some n)
            && (has_address sub.address a && has_pattern sub.pattern key)))
unfolding matches_parts
matches_parts-address c n a key sub = rw (parse_int-show n)

-- The filter of replayed events, which reads the metadata, and the filter of live messages, which
-- reads the key, agree on every event that stands for an invalidated address: for any subscription
-- and any address that holds no delimiter.
pub replay_agrees_with_live :
    (c : ChainName) (n : ℕ) (a : Text) (now : ℕ) (uuid : Text) (sub : AddressSubscription)
    → Lacks b':' a
    → let e = address_event c n a now uuid in
      matches_subscription e sub ≡ matches_subscription_message (event_data e) sub
unfolding matches_subscription matches_subscription_message address_cache_event
replay_agrees_with_live c n a now uuid sub h = rw (
  invalidated_key-truthy c n a,
  split-invalidated_key c n a h,
  matches_parts-address c n a (invalidated_key c n a) sub,
  metadata_chain-has_chain sub.chain c,
)
