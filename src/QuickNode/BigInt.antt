-- ===== src/QuickNode/BigInt.antt =====
-- `BigInt(s)`, `toString(16)` and `padStart` of the JavaScript library, as the QuickNode code uses them.
pub mod RoundTrip
use onekey_balance_kit.Base.{
  ℕ, zero, suc, ◌+◌, ◌-◌, ◌*◌, ◌/◌, ◌%◌, ◌≤◌, ◌<◌, ◌≡◌, refl, ◌∙◌, ap, Bool, true, false, ◌&&◌,
  ◌||◌, Option, none, some, List, [], ◌∷◌, ◌++◌, Text, codes, length, show, lower_unit, ltb, leb,
  nat_beq, if◌then◌else◌, ltb→lt, Bool-cases, inl, inr, arith, All, All-append, truthy,
}
use onekey_balance_kit.Webhook.Signature.{trim_start, trim_end, hex_value}

pub data ℤ : Type 0 where
  pos negsuc : ℕ → ℤ

-- The value of a digit below the radix.
abbrev pub digit_in : ℕ → ℕ → Option ℕ
digit_in radix c = elim (hex_value (lower_unit c)) [
  | none ↦ none
  | some d ↦ if ltb d radix then some d else none
]

-- All digits of a text, behind the number of the digits before it.
unfoldable pub read_digits : ℕ → Text → ℕ → Option ℕ
read_digits radix [] n = some n
read_digits radix (c ∷ s) n = elim (digit_in radix c) [
  | none ↦ none
  | some d ↦ read_digits radix s (n * radix + d)
]

abbrev pub read_some : ℕ → Text → Option ℕ
read_some radix [] = none
read_some radix (c ∷ s) = read_digits radix (c ∷ s) 0

abbrev pub as_pos : Option ℕ → Option ℤ
as_pos none = none
as_pos (some n) = some (pos n)

abbrev pub negated : ℕ → ℤ
negated zero = pos 0
negated (suc n) = negsuc n

abbrev pub as_negated : Option ℕ → Option ℤ
as_negated none = none
as_negated (some n) = some (negated n)

-- The radix that the letter behind a zero stands for.
abbrev pub radix_of : ℕ → Option ℕ
radix_of c =
    if nat_beq c b'x'
    then some 16
    else if nat_beq c b'o'
    then some 8
    else if nat_beq c b'b'
    then some 2
    else none

abbrev pub zero_first : ℕ → Text → Option ℕ
zero_first c s = elim (radix_of (lower_unit c)) [
  | none ↦ read_some 10 (b'0' ∷ c ∷ s)
  | some radix ↦ read_some radix s
]

-- A literal without a sign.
abbrev pub unsigned_int : Text → Option ℕ
unsigned_int [] = some 0
unsigned_int (a ∷ []) = read_some 10 (a ∷ [])
unsigned_int (a ∷ c ∷ s) = if nat_beq a b'0' then zero_first c s else read_some 10 (a ∷ c ∷ s)

abbrev pub signed_int : Text → Option ℤ
signed_int [] = some (pos 0)
signed_int (c ∷ s) =
    if nat_beq c b'-'
    then as_negated (read_some 10 s)
    else if nat_beq c b'+'
    then as_pos (read_some 10 s)
    else as_pos (unsigned_int (c ∷ s))

-- `BigInt(s)`, and `none` where it throws.
unfoldable pub big_int : Text → Option ℤ
big_int s = signed_int (trim_end (trim_start s))

abbrev pub hex_unit : ℕ → ℕ
hex_unit d = if ltb d 10 then b'0' + d else b'a' + (d - 10)

-- Each round takes off the last digit; `n < f` is fuel enough.
unfoldable hex_digits : ℕ → ℕ → Text
hex_digits zero n = []
hex_digits (suc f) n =
    let rest = hex_digits f (n / 16) ++ hex_unit (n % 16) ∷ [] in
    if ltb n 16 then hex_unit n ∷ [] else rest

unfoldable pub show_hex : ℕ → Text
unfolding hex_digits
show_hex n = hex_digits (suc n) n

-- `n.toString()` and `n.toString(16)`.
abbrev pub show_int : ℤ → Text
show_int (pos n) = show n
show_int (negsuc n) = b'-' ∷ show (suc n)

abbrev pub show_int_hex : ℤ → Text
show_int_hex (pos n) = show_hex n
show_int_hex (negsuc n) = b'-' ∷ show_hex (suc n)

abbrev pub repeat : ℕ → ℕ → Text
repeat zero c = []
repeat (suc n) c = c ∷ repeat n c

abbrev pub pad_start : ℕ → ℕ → Text → Text
pad_start n c s = repeat (n - length s) c ++ s
