-- ===== src/Webhook/Management/Tracking.antt =====
-- The maps from addresses to webhooks of webhook/webhook-management.service.ts.
use onekey_balance_kit.Base.{
  ◌≡◌, refl, ◌≢◌, Bool, ◌&&◌, ◌||◌, not, List, [], ◌∷◌, ◌++◌, Text, text_beq, text_beq_iff,
  if◌then◌else◌, or_else, Map, get, set, get-set, get-delete, arith, Bool-cases, Option-cases, inl,
  inr, All, set-All, delete-All,
}
use onekey_balance_kit.Webhook.Account.{member, add_id, drop_id, map_added, map_left, map_removed}

-- Whether the map has the webhook among those of the address.
abbrev pub tracks : Map (List Text) → Text → Text → Bool
tracks m address id = member id (or_else (get address m) [])

member-append : (v : Text) (xs ys : List Text) → member v (xs ++ ys) ≡ (member v xs || member v ys)
member-append v [] ys = refl
member-append v (x ∷ xs) ys = ground (arith, member-append v xs ys)

member-add_id :
    (v id : Text) (xs : List Text) → member v (add_id id xs) ≡ (text_beq id v || member v xs)
member-add_id v id xs = elim (Bool-cases (member id xs)) [
  | inl old ↦ rw old (elim (Bool-cases (text_beq id v)) [
    | inl same ↦ rw same (rw ((text_beq_iff id v).0 same) at old)
    | inr other ↦ rw other
  ])
  | inr new ↦ rw (new, member-append v xs (id ∷ [])) (ground arith)
]

member-drop_id :
    (v id : Text) (xs : List Text) → member v (drop_id id xs) ≡ (not (text_beq v id) && member v xs)
member-drop_id v id [] = ground arith
member-drop_id v id (x ∷ xs) =
    ground (arith, member-drop_id v id xs, text_beq_iff x id, text_beq_iff x v, text_beq_iff v id)

pub tracks-added :
    (id : Text) (added : List Text) (m : Map (List Text)) (address v : Text)
    → tracks (map_added id added m) address v
      ≡ ((text_beq id v && member address added) || tracks m address v)
unfolding map_added
tracks-added id [] m address v = ground arith
tracks-added id (a ∷ rest) m address v = ground (
  arith,
  tracks-added id rest (set a (add_id id (or_else (get a m) [])) m) address v,
  get-set a address (add_id id (or_else (get a m) [])) m,
  member-add_id v id (or_else (get a m) []),
  text_beq_iff a address,
)

tracks-left :
    (id a : Text) (m : Map (List Text)) (ids : List Text) (address v : Text)
    → tracks (map_left id a m ids) address v
      ≡ (if text_beq a address then member v ids else tracks m address v)
tracks-left id a m [] address v = ground (arith, get-delete a address m)
tracks-left id a m (x ∷ xs) address v = ground (arith, get-set a address (x ∷ xs) m)

pub tracks-removed :
    (id : Text) (removed : List Text) (m : Map (List Text)) (address v : Text)
    → tracks (map_removed id removed m) address v
      ≡ (not (text_beq id v && member address removed) && tracks m address v)
unfolding map_removed
tracks-removed id [] m address v = ground arith
tracks-removed id (a ∷ rest) m address v = elim (Option-cases (get a m)) [
  | inl absent ↦
      rw (absent, map_removed)
        (ground (arith, tracks-removed id rest m address v, text_beq_iff a address, absent))
  | inr (ids, found) ↦
      rw (found, map_removed)
        (ground (
          arith,
          tracks-removed id rest (map_left id a m (drop_id id ids)) address v,
          tracks-left id a m (drop_id id ids) address v,
          member-drop_id v id ids,
          text_beq_iff a address,
          text_beq_iff v id,
          text_beq_iff id v,
          found,
        ))
]

-- No address stands in the map without a webhook.
abbrev pub HasWebhooks : Text × List Text → Type 0
HasWebhooks e = e.1 ≢ []

add_id-ne-nil : (id : Text) (xs : List Text) → add_id id xs ≢ []
add_id-ne-nil id [] = cc
add_id-ne-nil id (x ∷ xs) = ground arith

pub map_added-HasWebhooks :
    (id : Text) (added : List Text) (m : Map (List Text))
    → All HasWebhooks m
    → All HasWebhooks (map_added id added m)
unfolding map_added
map_added-HasWebhooks id [] m h = h
map_added-HasWebhooks id (a ∷ rest) m h =
    map_added-HasWebhooks id rest (set a (add_id id (or_else (get a m) [])) m) (
      set-All HasWebhooks a (add_id id (or_else (get a m) [])) m
        (add_id-ne-nil id (or_else (get a m) [])) h)

map_left-HasWebhooks :
    (id a : Text) (m : Map (List Text)) (ids : List Text)
    → All HasWebhooks m
    → All HasWebhooks (map_left id a m ids)
map_left-HasWebhooks id a m [] h = delete-All HasWebhooks a m h
map_left-HasWebhooks id a m (x ∷ xs) h = set-All HasWebhooks a (x ∷ xs) m (λ e. cc) h

pub map_removed-HasWebhooks :
    (id : Text) (removed : List Text) (m : Map (List Text))
    → All HasWebhooks m
    → All HasWebhooks (map_removed id removed m)
unfolding map_removed
map_removed-HasWebhooks id [] m h = h
map_removed-HasWebhooks id (a ∷ rest) m h = elim (Option-cases (get a m)) [
  | inl absent ↦ rw (absent, map_removed) (map_removed-HasWebhooks id rest m h)
  | inr (ids, found) ↦
      rw (found, map_removed)
        (map_removed-HasWebhooks id rest (map_left id a m (drop_id id ids))
          (map_left-HasWebhooks id a m (drop_id id ids) h))
]
