-- ===== src/Base/Maps.antt =====
-- `Map<string, V>`: entries in insertion order; a write to a present key stays in its place.
use mathlib.Core.Path.{◌≡◌, refl}
use mathlib.Core.Logic.{inl, inr}
use mathlib.Core.Bool.{Bool}
use mathlib.Core.Option.{Option, none, some}
use mathlib.Core.List.{List, [], ◌∷◌}
use native.Mathlib.Omega.{arith}
use onekey_balance_kit.Base.Conditions.{if◌then◌else◌, Bool-cases, is_some}
use onekey_balance_kit.Base.Lists.{All}
use onekey_balance_kit.Base.Strings.{Text, text_beq, text_beq_refl, text_beq_iff}

module _ {ℓ} where
  abbrev pub Map : Type ℓ → Type ℓ
  Map V = List (Text × V)

module _ {ℓ} {V : Type ℓ} where
  unfoldable pub get : Text → Map V → Option V
  get k [] = none
  get k ((j, v) ∷ m) = if text_beq j k then some v else get k m

  abbrev pub has : Text → Map V → Bool
  has k m = is_some (get k m)

  unfoldable pub set : Text → V → Map V → Map V
  set k v [] = (k, v) ∷ []
  set k v ((j, w) ∷ m) = if text_beq j k then (j, v) ∷ m else (j, w) ∷ set k v m

  unfoldable pub delete : Text → Map V → Map V
  delete k [] = []
  delete k ((j, w) ∷ m) = if text_beq j k then delete k m else (j, w) ∷ delete k m

  pub get-set :
      (k j : Text) (v : V) (m : Map V)
      → get j (set k v m) ≡ (if text_beq k j then some v else get j m)
  unfolding get set
  get-set k j v [] = refl
  get-set k j v ((i, w) ∷ m) =
      ground (arith, text_beq_iff k j, text_beq_iff i k, text_beq_iff i j, get-set k j v m)

  pub get-delete :
      (k j : Text) (m : Map V) → get j (delete k m) ≡ (if text_beq k j then none else get j m)
  unfolding get delete
  get-delete k j [] = ground arith
  get-delete k j ((i, w) ∷ m) =
      ground (arith, text_beq_iff k j, text_beq_iff i k, text_beq_iff i j, get-delete k j m)

  pub delete-set : (k : Text) (v : V) (m : Map V) → delete k (set k v m) ≡ delete k m
  unfolding set delete
  delete-set k v [] = ground (arith, text_beq_refl k)
  delete-set k v ((j, w) ∷ m) = ground (arith, delete-set k v m)

  pub get-set_self : (k : Text) (v : V) (m : Map V) → get k (set k v m) ≡ some v
  get-set_self k v m = rw (get-set k k v m, text_beq_refl k)

  -- No key has two entries.
  abbrev pub IsUnique : Map V → Type ℓ
  IsUnique [] = Unit
  IsUnique ((k, v) ∷ m) = (get k m ≡ none) × IsUnique m

  pub set-IsUnique : (k : Text) (v : V) (m : Map V) → IsUnique m → IsUnique (set k v m)
  unfolding set get
  set-IsUnique k v [] h = (refl, tt)
  set-IsUnique k v ((j, w) ∷ m) h =
      ground (arith, get-set k j v m, set-IsUnique k v m h.1, text_beq_iff k j, text_beq_iff j k)

  pub delete-IsUnique : (k : Text) (m : Map V) → IsUnique m → IsUnique (delete k m)
  unfolding delete
  delete-IsUnique k [] h = h
  delete-IsUnique k ((j, w) ∷ m) h = ground (arith, get-delete k j m, delete-IsUnique k m h.1)

  -- Every entry satisfies a predicate.
  pub set-All {κ} :
      (P : Text × V → Type κ) (k : Text) (v : V) (m : Map V)
      → P (k, v)
      → All P m
      → All P (set k v m)
  unfolding set
  set-All P k v [] p h = (p, tt)
  set-All P k v ((j, w) ∷ m) p h = elim (Bool-cases (text_beq j k)) [
    | inl same ↦ rw same (rw ((text_beq_iff j k).0 same) p, h.1)
    | inr other ↦ rw other (h.0, set-All P k v m p h.1)
  ]

  pub delete-All {κ} : (P : Text × V → Type κ) (k : Text) (m : Map V) → All P m → All P (delete k m)
  unfolding delete
  delete-All P k [] h = h
  delete-All P k ((j, w) ∷ m) h = elim (Bool-cases (text_beq j k)) [
    | inl same ↦ rw same (delete-All P k m h.1)
    | inr other ↦ rw other (h.0, delete-All P k m h.1)
  ]

  pub get-All {κ} :
      (P : Text × V → Type κ) (k : Text) (v : V) (m : Map V) → All P m → get k m ≡ some v → P (k, v)
  unfolding get
  get-All P k v [] h e = cc
  get-All P k v ((j, w) ∷ m) h e = elim (Bool-cases (text_beq j k)) [
    | inl same ↦ let found : w ≡ v = ground arith in rw (← (text_beq_iff j k).0 same, ← found) h.0
    | inr other ↦ get-All P k v m h.1 (ground arith)
  ]
