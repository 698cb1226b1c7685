-- ===== src/Sse/History.antt =====
-- The history of events of core/sse/sse-subscription.service.ts: `storeEvent` and `getEventsSince`.
use onekey_balance_kit.Base.{
  ℕ, zero, suc, ◌+◌, ◌-◌, ◌≤◌, ◌≡◌, refl, sym, ap, ◌∙◌, ◌≢◌, none, some, List, [], ◌∷◌, ◌++◌, Text,
  text_beq_iff, ltb, length, length-append, drop, length-drop, drop-append, All, append_assoc,
  append-nil, arith, Bool-cases, inl, inr,
}
use onekey_balance_kit.Sse.Subscription.{CacheInvalidateEvent}
use onekey_balance_kit.Sse.{max_stored_events, store_event, after_event, get_events_since}

-- The last events of a history, as many as are stored.
abbrev pub latest : List CacheInvalidateEvent → List CacheInvalidateEvent
latest events = drop (length events - max_stored_events) events

abbrev pub store_all :
    List CacheInvalidateEvent → List CacheInvalidateEvent → List CacheInvalidateEvent
store_all [] buffer = buffer
store_all (e ∷ es) buffer = store_all es (store_event e buffer)

drop-drop {ℓ} : {A : Type ℓ} (n : ℕ) (xs : List A) → drop 1 (drop n xs) ≡ drop (suc n) xs
drop-drop zero xs = refl
drop-drop (suc n) [] = refl
drop-drop (suc n) (x ∷ xs) = drop-drop n xs

store_event-latest :
    (e : CacheInvalidateEvent) (es : List CacheInvalidateEvent)
    → store_event e (latest es) ≡ latest (es ++ e ∷ [])
unfolding store_event
store_event-latest e es = elim (Bool-cases (ltb max_stored_events (length (latest es ++ e ∷ [])))) [
  | inl full ↦
      let next : suc (length es - max_stored_events) ≡ length (es ++ e ∷ []) - max_stored_events =
        ground (arith, held, longer) in
      rw (full, ← fits)
        (drop-drop (length es - max_stored_events) (es ++ e ∷ [])
          ∙ ap (λ n. drop n (es ++ e ∷ [])) next)
  | inr room ↦
      let next : length es - max_stored_events ≡ length (es ++ e ∷ []) - max_stored_events =
        ground (arith, held, longer) in
      rw (room, ← fits) (ap (λ n. drop n (es ++ e ∷ [])) next)
]
  where
    fits : drop (length es - max_stored_events) (es ++ e ∷ []) ≡ latest es ++ e ∷ []
    fits = drop-append (length es - max_stored_events) es (e ∷ []) (omega arith)

    held : length (latest es ++ e ∷ []) ≡ length es - (length es - max_stored_events) + 1
    held =
        omega (
          arith,
          length-append (latest es) (e ∷ []),
          length-drop (length es - max_stored_events) es,
        )

    longer : length (es ++ e ∷ []) ≡ length es + 1
    longer = length-append es (e ∷ [])

store_all-latest :
    (es seen : List CacheInvalidateEvent) → store_all es (latest seen) ≡ latest (seen ++ es)
store_all-latest [] seen = ap latest (sym (append-nil seen))
store_all-latest (e ∷ es) seen =
    ap (store_all es) (store_event-latest e seen)
    ∙ (store_all-latest es (seen ++ e ∷ []) ∙ ap latest (append_assoc seen (e ∷ []) es))

-- Storing any events one after the other, from the empty history, leaves the last 100 of them, in
-- their order.
pub store_all-eq-latest : (es : List CacheInvalidateEvent) → store_all es [] ≡ latest es
store_all-eq-latest es = store_all-latest es []

pub store_event-le :
    (e : CacheInvalidateEvent) (es : List CacheInvalidateEvent)
    → length es ≤ max_stored_events
    → length (store_event e es) ≤ max_stored_events
unfolding store_event
store_event-le e es h = ground (arith, length-append es (e ∷ []), length-drop 1 (es ++ e ∷ []))

-- No stored event has the identifier.
abbrev pub IsNew : Text → List CacheInvalidateEvent → Type 0
IsNew id = All (λ e. e.id ≢ id)

after_event-new :
    (id : Text) (es : List CacheInvalidateEvent) → IsNew id es → after_event id es ≡ none
unfolding after_event
after_event-new id [] h = refl
after_event-new id (e ∷ es) h = ground (arith, text_beq_iff e.id id, after_event-new id es h.1)

after_event-found :
    (id : Text) (pre : List CacheInvalidateEvent) (e : CacheInvalidateEvent)
    (post : List CacheInvalidateEvent)
    → IsNew id pre
    → e.id ≡ id
    → after_event id (pre ++ e ∷ post) ≡ some post
unfolding after_event
after_event-found id [] e post h same = ground (arith, text_beq_iff e.id id)
after_event-found id (d ∷ pre) e post h same =
    ground (arith, text_beq_iff d.id id, after_event-found id pre e post h.1 same)

-- An identifier that no stored event has: the whole history is replayed. If an event with it stands
-- behind the history, what follows that event is.
pub get_events_since_cases :
    (id : Text) (pre : List CacheInvalidateEvent) (e : CacheInvalidateEvent)
    (post : List CacheInvalidateEvent)
    → IsNew id pre
    → e.id ≡ id
    → (get_events_since id pre ≡ pre) × (get_events_since id (pre ++ e ∷ post) ≡ post)
unfolding get_events_since
get_events_since_cases id pre e post h same = (
  rw (after_event-new id pre h, get_events_since),
  rw (after_event-found id pre e post h same, get_events_since),
)

-- A stored event stands at the end, behind what is left of the events before it.
pub store_event_split :
    (id : Text) (e : CacheInvalidateEvent) (es : List CacheInvalidateEvent)
    → IsNew id es
    → (kept : List CacheInvalidateEvent) × (store_event e es ≡ kept ++ e ∷ []) × IsNew id kept
unfolding store_event
store_event_split id e [] h = ([], refl, tt)
store_event_split id e (d ∷ es) h =
    elim (Bool-cases (ltb max_stored_events (length ((d ∷ es) ++ e ∷ [])))) [
      | inl full ↦ (es, rw full, h.1)
      | inr room ↦ (d ∷ es, rw room, h)
    ]

-- So do two events, where the first of them is stored last.
pub store_event_split_last :
    (id : Text) (d e : CacheInvalidateEvent) (es : List CacheInvalidateEvent)
    → IsNew id es
    → (kept : List CacheInvalidateEvent) × (store_event e (es ++ d ∷ []) ≡ kept ++ d ∷ e ∷ [])
      × IsNew id kept
unfolding store_event
store_event_split_last id d e [] h = ([], refl, tt)
store_event_split_last id d e (c ∷ es) h =
    elim (Bool-cases (ltb max_stored_events (length (((c ∷ es) ++ d ∷ []) ++ e ∷ [])))) [
      | inl full ↦ (es, rw full (append_assoc es (d ∷ []) (e ∷ [])), h.1)
      | inr room ↦ (c ∷ es, rw room (append_assoc (c ∷ es) (d ∷ []) (e ∷ [])), h)
    ]
