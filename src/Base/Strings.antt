-- ===== src/Base/Strings.antt =====
-- JavaScript strings, as lists of UTF-16 code units, and the methods of `String.prototype` that the
-- source calls. `to_lower` maps the letters A to Z and leaves every other unit as it is.
use Prim.Native.Char.{code}
use Prim.Native.Nat.{ℕ, ◌+◌, ◌-◌}
use Prim.Native.String.{String}
use mathlib.Core.Path.{◌≡◌, refl}
use mathlib.Core.Logic.{◌↔◌, ◌≢◌}
use mathlib.Core.Bool.{Bool, true, false, ◌&&◌, ◌||◌}
use mathlib.Core.Option.{Option, none, some}
use mathlib.Core.List.{List, [], ◌∷◌, ◌++◌, map}
use native.Mathlib.Omega.{arith}
use onekey_balance_kit.Base.Conditions.{leb, nat_beq, if◌then◌else◌}
use onekey_balance_kit.Base.Lists.{All}

abbrev pub Text : Type 0
Text = List ℕ

-- The code units of an ASCII literal.
abbrev pub codes : String → Text
codes String.[] = []
codes (String.◌∷◌ c s) = code c ∷ codes s

abbrev pub text_beq : Text → Text → Bool
text_beq [] [] = true
text_beq [] (_ ∷ _) = false
text_beq (_ ∷ _) [] = false
text_beq (a ∷ s) (b ∷ t) = nat_beq a b && text_beq s t

text_beq_sound : (s t : Text) → text_beq s t ≡ true → s ≡ t
text_beq_sound [] [] h = refl
text_beq_sound [] (_ ∷ _) h = cc
text_beq_sound (_ ∷ _) [] h = cc
text_beq_sound (a ∷ s) (b ∷ t) h = ground (arith, text_beq_sound s t)

pub text_beq_refl : (s : Text) → text_beq s s ≡ true
text_beq_refl [] = refl
text_beq_refl (a ∷ s) = ground (arith, text_beq_refl s)

pub text_beq_iff : (s t : Text) → (text_beq s t ≡ true) ↔ (s ≡ t)
text_beq_iff s t = (text_beq_sound s t, λ e. subst_right e)
  where
    subst_right : s ≡ t → text_beq s t ≡ true
    subst_right e = rw (← e) (text_beq_refl s)

-- A string in a condition: only the empty one is false.
abbrev pub truthy : Text → Bool
truthy [] = false
truthy (_ ∷ _) = true

-- An optional string in a condition.
abbrev pub given : Option Text → Bool
given none = false
given (some s) = truthy s

abbrev pub lower_unit : ℕ → ℕ
lower_unit c = if leb b'A' c && leb c b'Z' then c + 32 else c

-- `s.toLowerCase()`, on ASCII.
unfoldable pub to_lower : Text → Text
to_lower = map lower_unit

abbrev pub upper_unit : ℕ → ℕ
upper_unit c = if leb b'a' c && leb c b'z' then c - 32 else c

-- `s.toUpperCase()`, on ASCII.
abbrev pub to_upper : Text → Text
to_upper = map upper_unit

pub to_lower_idem : (s : Text) → to_lower (to_lower s) ≡ to_lower s
unfolding to_lower
to_lower_idem [] = refl
to_lower_idem (c ∷ s) = ground (arith, to_lower_idem s)

-- `s || d` on a text that may be missing.
abbrev pub text_or : Option Text → Text → Text
text_or none d = d
text_or (some s) d = if truthy s then s else d

-- `o || null` on a text that may be missing.
abbrev pub non_empty : Option Text → Option Text
non_empty none = none
non_empty (some s) = if truthy s then some s else none

-- `o?.field`.
abbrev pub then_get {ℓ κ} : {A : Type ℓ} {B : Type κ} → Option A → (A → Option B) → Option B
then_get none f = none
then_get (some a) f = f a

-- `s.startsWith(p)`.
abbrev pub starts_with : Text → Text → Bool
starts_with s [] = true
starts_with [] (_ ∷ _) = false
starts_with (a ∷ s) (b ∷ p) = nat_beq a b && starts_with s p

-- `s.includes(p)`.
abbrev pub includes : Text → Text → Bool
includes [] p = starts_with [] p
includes (a ∷ s) p = starts_with (a ∷ s) p || includes s p

-- `s.split(d)` for a delimiter of one unit: the part that is being read, then the rest.
abbrev pub push_front : ℕ → List Text → List Text
push_front c [] = (c ∷ []) ∷ []
push_front c (part ∷ parts) = (c ∷ part) ∷ parts

unfoldable pub split : ℕ → Text → List Text
split d [] = [] ∷ []
split d (c ∷ s) = if nat_beq c d then [] ∷ split d s else push_front c (split d s)

-- `parts.join(d)`.
unfoldable pub join : ℕ → List Text → Text
join d [] = []
join d (part ∷ []) = part
join d (part ∷ next ∷ parts) = part ++ d ∷ join d (next ∷ parts)

abbrev pub Lacks : ℕ → Text → Type 0
Lacks d = All (λ c. c ≢ d)

pub split-single : (d : ℕ) (s : Text) → Lacks d s → split d s ≡ s ∷ []
unfolding split
split-single d [] h = refl
split-single d (c ∷ s) (h, hs) = ground (arith, split-single d s hs)

pub split-part : (d : ℕ) (s t : Text) → Lacks d s → split d (s ++ d ∷ t) ≡ s ∷ split d t
unfolding split
split-part d [] t h = ground arith
split-part d (c ∷ s) t (h, hs) = ground (arith, split-part d s t hs)

-- Splitting gives back the parts that were joined, if none of them holds the delimiter.
pub split-join :
    (d : ℕ) (part : Text) (parts : List Text)
    → All (Lacks d) (part ∷ parts)
    → split d (join d (part ∷ parts)) ≡ part ∷ parts
unfolding join
split-join d part [] (h, hs) = split-single d part h
split-join d part (next ∷ parts) (h, hs) =
    rw (split-part d part (join d (next ∷ parts)) h, split-join d next parts hs)
