-- ===== src/Sse/Clients.antt =====
-- The clients of core/sse/sse-subscription.service.ts: registration and the timeout check.
use onekey_balance_kit.Base.{
  ℕ, ◌≡◌, refl, sym, ap, ◌∙◌, Bool, true, false, not, Option, none, some, List, [], ◌∷◌, ◌++◌, Text,
  text_beq, text_beq_iff, text_beq_refl, if◌then◌else◌, is_some, keep_if, Map, get, set, delete,
  delete-set, Option-cases, get-set, get-delete, IsUnique, append_assoc, append-nil, arith,
  Bool-cases, inl, inr,
}
use onekey_balance_kit.Sse.Subscription.{AddressSubscription}
use onekey_balance_kit.Sse.{
  ClientConnection, SseService, is_timed_out, drop_timed_out, check_client_timeouts,
  register_client, unregister_client, drop_client, deactivated,
}

abbrev Entry : Type 0
Entry = Text × ClientConnection

pub delete-deactivated : (id : Text) (m : List Entry) → delete id (deactivated id m) ≡ delete id m
delete-deactivated id m = elim (Option-cases (get id m)) [
  | inl absent ↦ rw (absent, deactivated) refl
  | inr (c, found) ↦ rw (found, deactivated) (delete-set id (record c { is_active = false }) m)
]

-- What the loop does to the map alone.
dropped : ℕ → List Entry → List Entry → List Entry
dropped now [] m = m
dropped now ((id, c) ∷ entries) m =
    dropped now entries (if is_timed_out now c then delete id m else m)

drop_timed_out-clients :
    (now : ℕ) (entries : List Entry) (s : SseService)
    → (drop_timed_out now entries s).clients ≡ dropped now entries s.clients
unfolding drop_timed_out dropped
drop_timed_out-clients now [] s = refl
drop_timed_out-clients now ((id, c) ∷ entries) s =
    drop_timed_out-clients now entries (if is_timed_out now c then drop_client id s else s)
    ∙ ap (dropped now entries) (chosen (is_timed_out now c))
  where
    chosen :
        (b : Bool)
        → (if b then drop_client id s else s).clients
          ≡ (if b then delete id s.clients else s.clients)
    chosen true = delete-deactivated id s.clients
    chosen false = refl

delete-absent {ℓ} : {V : Type ℓ} (k : Text) (m : Map V) → get k m ≡ none → delete k m ≡ m
unfolding get delete
delete-absent k [] h = refl
delete-absent k ((j, v) ∷ m) h = ground (arith, delete-absent k m)

delete-other {ℓ} :
    {V : Type ℓ} (k j : Text) (v : V) (m : Map V)
    → text_beq j k ≡ false
    → delete k ((j, v) ∷ m) ≡ (j, v) ∷ delete k m
unfolding delete
delete-other k j v m h = rw h

dropped-skip :
    (now : ℕ) (id : Text) (c : ClientConnection) (entries m : List Entry)
    → get id entries ≡ none
    → dropped now entries ((id, c) ∷ m) ≡ (id, c) ∷ dropped now entries m
unfolding dropped get
dropped-skip now id c [] m h = refl
dropped-skip now id c ((j, d) ∷ entries) m h = elim (Bool-cases (is_timed_out now d)) [
  | inl late ↦
      let other : text_beq id j ≡ false = ground (arith, text_beq_iff j id, text_beq_iff id j) in
      rw (late, delete-other j id c m other)
        (dropped-skip now id c entries (delete j m) (ground arith))
  | inr live ↦ rw live (dropped-skip now id c entries m (ground arith))
]

abbrev pub live_entries : ℕ → List Entry → List Entry
live_entries now = keep_if (λ e. not (is_timed_out now e.1))

dropped-keep_if : (now : ℕ) (m : List Entry) → IsUnique m → dropped now m m ≡ live_entries now m
unfolding dropped delete
dropped-keep_if now [] h = refl
dropped-keep_if now ((id, c) ∷ m) (new, h) = elim (Bool-cases (is_timed_out now c)) [
  | inl late ↦ rw (late, text_beq_refl id, delete-absent id m new) (dropped-keep_if now m h)
  | inr live ↦
      rw (live, dropped-skip now id c m m new) (ap (λ xs. (id, c) ∷ xs) (dropped-keep_if now m h))
]

abbrev pub ids {ℓ} : {V : Type ℓ} → Map V → List Text
ids [] = []
ids ((id, c) ∷ entries) = id ∷ ids entries

drop_timed_out-signals :
    (now : ℕ) (entries : List Entry) (s : SseService)
    → (drop_timed_out now entries s).signals
      ≡ s.signals ++ ids (keep_if (λ e. is_timed_out now e.1) entries)
unfolding drop_timed_out
drop_timed_out-signals now [] s = sym (append-nil s.signals)
drop_timed_out-signals now ((id, c) ∷ entries) s =
    drop_timed_out-signals now entries (if is_timed_out now c then drop_client id s else s)
    ∙ chosen (is_timed_out now c)
  where
    late : List Entry
    late = keep_if (λ e. is_timed_out now e.1) entries

    chosen :
        (b : Bool)
        → (if b then drop_client id s else s).signals ++ ids late
          ≡ s.signals ++ ids (if b then (id, c) ∷ late else late)
    chosen true = append_assoc s.signals (id ∷ []) (ids late)
    chosen false = refl

-- The timeout check removes the active clients that were last active more than 30 seconds ago,
-- keeps all others as they are and in their order, and ends the streams of those that it removes,
-- where no two clients share an identifier.
pub check_client_timeouts_lem :
    (now : ℕ) (s : SseService)
    → IsUnique s.clients
    → let s' = check_client_timeouts now s in
      (s'.clients ≡ live_entries now s.clients)
      × (s'.signals ≡ s.signals ++ ids (keep_if (λ e. is_timed_out now e.1) s.clients))
unfolding check_client_timeouts
check_client_timeouts_lem now s h = (
  drop_timed_out-clients now s.clients s ∙ dropped-keep_if now s.clients h,
  drop_timed_out-signals now s.clients s,
)

abbrev pub fresh_client : Text → Option AddressSubscription → ℕ → ClientConnection
fresh_client id subscription now = record {
  id = id;
  last_active = now;
  is_active = true;
  subscription = subscription;
}

get-unregister_other :
    (id j : Text) (s : SseService)
    → text_beq id j ≡ false
    → get j (unregister_client id s).clients ≡ get j s.clients
unfolding unregister_client
get-unregister_other id j s h =
    ground (arith, get-delete id j s.clients, delete-deactivated id s.clients)

-- Whether a client of the map is active.
abbrev pub is_connected : Text → SseService → Bool
is_connected id s = elim (get id s.clients) [ none ↦ false | some c ↦ c.is_active ]

-- After a registration the client's entry is the new one, whatever was there, and every other
-- client's entry is as before; the streams of the identifier are ended exactly if an active client
-- had it.
pub get-register_client :
    (id j : Text) (subscription : Option AddressSubscription) (now : ℕ) (s : SseService)
    → let s' = register_client id subscription now s in
      (get j s'.clients
        ≡ (if text_beq id j then some (fresh_client id subscription now) else get j s.clients))
      × (s'.signals ≡ (if is_connected id s then s.signals ++ id ∷ [] else s.signals))
unfolding register_client
get-register_client id j subscription now s = (entry, ended)
  where
    base : SseService
    base = if is_some (get id s.clients) then unregister_client id s else s

    entry :
        get j (set id (fresh_client id subscription now) base.clients)
        ≡ (if text_beq id j then some (fresh_client id subscription now) else get j s.clients)
    entry = elim (Bool-cases (text_beq id j)) [
      | inl same ↦ rw (same, get-set id j (fresh_client id subscription now) base.clients, same)
      | inr other ↦
          rw (other, get-set id j (fresh_client id subscription now) base.clients, other)
            (ground (arith, get-unregister_other id j s other))
    ]

    ended : base.signals ≡ (if is_connected id s then s.signals ++ id ∷ [] else s.signals)
    ended = ground arith
