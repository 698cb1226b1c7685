-- ===== src/Base/Digits.antt =====
-- `String(n)`, `Number(s)` and `parseInt(s, 10)`, on naturals. `Number` and `parseInt` are exact up to
-- 2^53 - 1; a text that stands for any other number (a sign, a fraction, an exponent, a larger
-- numeral) is treated like one that is no number.
use Prim.Native.Nat.{ℕ, zero, suc, ◌+◌, ◌-◌, ◌*◌, ◌/◌, ◌%◌, ◌^◌, ◌≤◌, ◌<◌}
use mathlib.Core.Path.{◌≡◌, refl, ◌∙◌}
use mathlib.Core.Logic.{inl, inr}
use mathlib.Core.Bool.{Bool, true, ◌&&◌, ◌||◌}
use mathlib.Core.Option.{Option, none, some}
use mathlib.Core.List.{[], ◌∷◌, ◌++◌}
use native.Mathlib.Omega.{arith}
use onekey_balance_kit.Base.Conditions.{ltb, leb, nat_beq, if◌then◌else◌, Bool-cases, ltb→lt}
use onekey_balance_kit.Base.Lists.{All, All-append}
use onekey_balance_kit.Base.Strings.{Text, truthy, Lacks}

-- Each round takes off the last digit; `n < f` is fuel enough.
digits : ℕ → ℕ → Text
digits zero n = []
digits (suc f) n =
    let rest = digits f (n / 10) ++ (b'0' + n % 10) ∷ [] in
    if ltb n 10 then (b'0' + n) ∷ [] else rest

unfoldable pub show : ℕ → Text
unfolding digits
show n = digits (suc n) n

abbrev pub is_digit : ℕ → Bool
is_digit c = leb b'0' c && leb c b'9'

-- The value of the leading digits.
unfoldable pub scan : Text → ℕ → ℕ
scan [] n = n
scan (c ∷ s) n = let rest = scan s (n * 10 + (c - b'0')) in if is_digit c then rest else n

abbrev pub all_digits : Text → Bool
all_digits [] = true
all_digits (c ∷ s) = is_digit c && all_digits s

abbrev pub max_safe : ℕ
max_safe = 2 ^ 53 - 1

-- `Number(s)`, and `none` for `NaN`.
unfoldable pub to_number : Text → Option ℕ
to_number s =
    if truthy s && all_digits s
    then (if leb (scan s 0) max_safe then some (scan s 0) else none)
    else none

abbrev pub is_space : ℕ → Bool
is_space c = nat_beq c 32 || (leb 9 c && leb c 13)

abbrev pub unsigned : Text → Option ℕ
unsigned [] = none
unsigned (c ∷ s) = if is_digit c then some (scan (c ∷ s) 0) else none

-- `parseInt(s, 10)`, and `none` for `NaN` or a negative result.
unfoldable pub parse_int : Text → Option ℕ
unfolding scan
parse_int [] = none
parse_int (c ∷ s) =
    if is_space c then parse_int s else if nat_beq c b'+' then unsigned s else unsigned (c ∷ s)

abbrev pub AllDigits : Text → Type 0
AllDigits = All (λ c. (b'0' ≤ c) × (c ≤ b'9'))

digits-AllDigits : (f n : ℕ) → AllDigits (digits f n)
unfolding digits
digits-AllDigits zero n = tt
digits-AllDigits (suc f) n = elim (Bool-cases (ltb n 10)) [
  | inl small ↦ rw small (omega (arith, ltb→lt n 10 small))
  | inr large ↦ rw large (
      All-append (λ c. (b'0' ≤ c) × (c ≤ b'9')) (digits f (n / 10)) ((b'0' + n % 10) ∷ [])
        (digits-AllDigits f (n / 10)) (omega arith))
]

pub show-AllDigits : (n : ℕ) → AllDigits (show n)
unfolding show
show-AllDigits n = digits-AllDigits (suc n) n

all_digits_of : (s : Text) → AllDigits s → all_digits s ≡ true
all_digits_of [] h = refl
all_digits_of (c ∷ s) h = ground (arith, all_digits_of s h.1)

AllDigits-Lacks : (d : ℕ) (s : Text) → b'9' < d → AllDigits s → Lacks d s
AllDigits-Lacks d [] h a = tt
AllDigits-Lacks d (c ∷ s) h a = (omega arith, AllDigits-Lacks d s h a.1)

pub show-Lacks : (n : ℕ) → Lacks b':' (show n)
show-Lacks n = AllDigits-Lacks b':' (show n) (omega arith) (show-AllDigits n)

scan-append : (s t : Text) (n : ℕ) → AllDigits s → scan (s ++ t) n ≡ scan t (scan s n)
unfolding scan
scan-append [] t n h = refl
scan-append (c ∷ s) t n h = ground (arith, scan-append s t (n * 10 + (c - b'0')) h.1)

scan-digits : (f n : ℕ) → n < f → scan (digits f n) 0 ≡ n
unfolding digits scan
scan-digits zero n h = elim h [ ]
scan-digits (suc f) n h = elim (Bool-cases (ltb n 10)) [
  | inl small ↦ rw small (ground arith)
  | inr large ↦
      rw
        (
          large,
          scan-append (digits f (n / 10)) ((b'0' + n % 10) ∷ []) 0 (digits-AllDigits f (n / 10)),
        )
        (ground (arith, scan-digits f (n / 10)))
]

pub scan-show : (n : ℕ) → scan (show n) 0 ≡ n
unfolding show
scan-show n = scan-digits (suc n) n (omega arith)

append-truthy : (s : Text) (c : ℕ) → truthy (s ++ c ∷ []) ≡ true
append-truthy [] c = refl
append-truthy (d ∷ s) c = refl

pub show-truthy : (n : ℕ) → truthy (show n) ≡ true
unfolding show
show-truthy n = ground (arith, append-truthy (digits n (n / 10)) (b'0' + n % 10))

pub to_number-show : (n : ℕ) → n ≤ max_safe → to_number (show n) ≡ some n
unfolding to_number
to_number-show n h =
    rw (show-truthy n, all_digits_of (show n) (show-AllDigits n), scan-show n) (ground arith)

parse_int-scan : (s : Text) → truthy s ≡ true → AllDigits s → parse_int s ≡ some (scan s 0)
unfolding parse_int
parse_int-scan [] h a = cc
parse_int-scan (c ∷ s) h a = ground arith

-- `parseInt(String(n), 10)` is `n`.
pub parse_int-show : (n : ℕ) → parse_int (show n) ≡ some n
parse_int-show n = parse_int-scan (show n) (show-truthy n) (show-AllDigits n) ∙ rw (scan-show n)

show_test : show 11155111 ≡ b'1' ∷ b'1' ∷ b'1' ∷ b'5' ∷ b'5' ∷ b'1' ∷ b'1' ∷ b'1' ∷ []
unfolding show
show_test = refl

parse_int_test : parse_int (32 ∷ b'4' ∷ b'2' ∷ b'x' ∷ b'7' ∷ []) ≡ some 42
unfolding parse_int
parse_int_test = refl
