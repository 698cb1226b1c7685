-- ===== src/QuickNode/BigInt/RoundTrip.antt =====
-- That hexadecimal numerals, padded or not, are read back.
use onekey_balance_kit.Base.{
  ℕ, zero, suc, ◌+◌, ◌-◌, ◌*◌, ◌/◌, ◌%◌, ◌≤◌, ◌<◌, ◌≡◌, refl, ◌∙◌, ap, sym, true, false, some, [],
  ◌∷◌, ◌++◌, Text, length, ltb, ltb→lt, Bool-cases, Option-cases, inl, inr, arith, All, All-append,
  truthy,
}
use onekey_balance_kit.QuickNode.BigInt.{
  pos, digit_in, read_digits, read_some, as_pos, signed_int, big_int, hex_unit, hex_digits,
  show_hex, repeat, pad_start,
}
use onekey_balance_kit.Webhook.Signature.{is_space, push_trimmed, trim_start, trim_end}

-- The units from `0` to `x`, which are none that `trim` takes off.
abbrev pub IsHex : Text → Type 0
IsHex = All (λ c. (b'0' ≤ c) × (c ≤ b'x'))

is_space-hex : (c : ℕ) → b'0' ≤ c → c ≤ b'x' → is_space c ≡ false
is_space-hex c lo hi = ground arith

trim_end-IsHex : (s : Text) → IsHex s → trim_end s ≡ s
trim_end-IsHex [] h = refl
trim_end-IsHex (c ∷ []) h = rw (is_space-hex c h.0.0 h.0.1) refl
trim_end-IsHex (c ∷ d ∷ s) h = ap (push_trimmed c) (trim_end-IsHex (d ∷ s) h.1)

trim_start-IsHex : (c : ℕ) (s : Text) → b'0' ≤ c → c ≤ b'x' → trim_start (c ∷ s) ≡ c ∷ s
trim_start-IsHex c s lo hi = rw (is_space-hex c lo hi) refl

digit_in-hex_unit : (d : ℕ) → d < 16 → digit_in 16 (hex_unit d) ≡ some d
digit_in-hex_unit d h = ground arith

hex_unit-IsHex : (d : ℕ) → d < 16 → (b'0' ≤ hex_unit d) × (hex_unit d ≤ b'x')
hex_unit-IsHex d h = ground arith

one_digit :
    (c : ℕ) (s : Text) (n d : ℕ)
    → digit_in 16 c ≡ some d
    → read_digits 16 (c ∷ s) n ≡ read_digits 16 s (n * 16 + d)
unfolding read_digits
one_digit c s n d e = rw (read_digits, e) refl

read_digits-append :
    (s t : Text) (n m : ℕ)
    → read_digits 16 s n ≡ some m
    → read_digits 16 (s ++ t) n ≡ read_digits 16 t m
unfolding read_digits
read_digits-append [] t n m e = let same : n ≡ m = ground (arith, e) in ap (read_digits 16 t) same
read_digits-append (c ∷ s) t n m e = elim (Option-cases (digit_in 16 c)) [
  | inl bad ↦ absurd (let f = rw (read_digits, bad) at e in ground (arith, f))
  | inr (d, good) ↦
      one_digit c (s ++ t) n d good
      ∙ read_digits-append s t (n * 16 + d) m (sym (one_digit c s n d good) ∙ e)
]

read_digits-hex_digits : (f n : ℕ) → n < f → read_digits 16 (hex_digits f n) 0 ≡ some n
unfolding hex_digits read_digits
read_digits-hex_digits zero n h = elim h [ ]
read_digits-hex_digits (suc f) n h = elim (Bool-cases (ltb n 16)) [
  | inl small ↦
      rw small
        (one_digit (hex_unit n) [] 0 n (digit_in-hex_unit n (ltb→lt n 16 small)) ∙ ground arith)
  | inr large ↦
      rw
        (
          large,
          read_digits-append (hex_digits f (n / 16)) (hex_unit (n % 16) ∷ []) 0 (n / 16)
              (read_digits-hex_digits f (n / 16) (ground arith)),
          one_digit (hex_unit (n % 16)) [] (n / 16) (n % 16)
              (digit_in-hex_unit (n % 16) (omega arith)),
        )
        (ground arith)
]

hex_digits-IsHex : (f n : ℕ) → IsHex (hex_digits f n)
unfolding hex_digits
hex_digits-IsHex zero n = tt
hex_digits-IsHex (suc f) n = elim (Bool-cases (ltb n 16)) [
  | inl small ↦ rw small (hex_unit-IsHex n (ltb→lt n 16 small), tt)
  | inr large ↦ rw large (
      All-append (λ c. (b'0' ≤ c) × (c ≤ b'x')) (hex_digits f (n / 16)) (hex_unit (n % 16) ∷ [])
        (hex_digits-IsHex f (n / 16)) (hex_unit-IsHex (n % 16) (omega arith), tt))
]

read_some-truthy : (s : Text) → truthy s ≡ true → read_some 16 s ≡ read_digits 16 s 0
read_some-truthy [] h = ground arith
read_some-truthy (c ∷ s) h = refl

-- Zeros in front change nothing.
repeat_lem : (k : ℕ) (s : Text) → read_digits 16 (repeat k b'0' ++ s) 0 ≡ read_digits 16 s 0
unfolding read_digits
repeat_lem zero s = refl
repeat_lem (suc k) s = repeat_lem k s

repeat-IsHex : (k : ℕ) → IsHex (repeat k b'0')
repeat-IsHex zero = tt
repeat-IsHex (suc k) = ((omega arith, omega arith), repeat-IsHex k)

truthy-append : (s t : Text) → truthy t ≡ true → truthy (s ++ t) ≡ true
truthy-append [] t h = h
truthy-append (c ∷ s) t h = refl

one_truthy : (s : Text) (c : ℕ) → truthy (s ++ c ∷ []) ≡ true
one_truthy s c = truthy-append s (c ∷ []) refl

show_hex-truthy : (n : ℕ) → truthy (show_hex n) ≡ true
unfolding show_hex
show_hex-truthy n = ground (arith, one_truthy (hex_digits n (n / 16)) (hex_unit (n % 16)))

big_int-IsHex : (s : Text) → IsHex s → big_int (b'0' ∷ b'x' ∷ s) ≡ as_pos (read_some 16 s)
unfolding big_int
big_int-IsHex s h =
    ap signed_int (
      trim_end-IsHex (b'0' ∷ b'x' ∷ s)
        ((omega arith, omega arith), ((omega arith, omega arith), h)))

big_int-zeros : (k n : ℕ) → big_int (b'0' ∷ b'x' ∷ (repeat k b'0' ++ show_hex n)) ≡ some (pos n)
unfolding show_hex
big_int-zeros k n =
    big_int-IsHex (repeat k b'0' ++ show_hex n) (
      All-append (λ c. (b'0' ≤ c) × (c ≤ b'x')) (repeat k b'0') (show_hex n) (repeat-IsHex k)
        (hex_digits-IsHex (suc n) n))
    ∙ ap as_pos (
        read_some-truthy (repeat k b'0' ++ show_hex n)
          (truthy-append (repeat k b'0') (show_hex n) (show_hex-truthy n))
        ∙ repeat_lem k (show_hex n)
        ∙ read_digits-hex_digits (suc n) n (omega arith))

-- A hexadecimal numeral of a number, with any width that it is padded to, is read as the number.
pub big_int-pad_start :
    (w n : ℕ) → big_int (b'0' ∷ b'x' ∷ pad_start w b'0' (show_hex n)) ≡ some (pos n)
big_int-pad_start w n = big_int-zeros (w - length (show_hex n)) n

pub big_int-show_hex : (n : ℕ) → big_int (b'0' ∷ b'x' ∷ show_hex n) ≡ some (pos n)
big_int-show_hex n = big_int-zeros zero n
