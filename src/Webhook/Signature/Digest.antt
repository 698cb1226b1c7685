-- ===== src/Webhook/Signature/Digest.antt =====
-- What webhook/utils/signature-validator.ts accepts.
use onekey_balance_kit.Base.{
  ℕ, suc, ◌+◌, ◌-◌, ◌*◌, ◌<◌, ◌≡◌, refl, sym, ap, ◌∙◌, ◌↔◌, Bool, true, false, Option, none, some,
  List, [], ◌∷◌, Text, text_beq, text_beq_iff, text_beq_refl, nat_beq, if◌then◌else◌, length, arith,
  All, is_some, truthy,
}
use onekey_balance_kit.Cache.{Reply, returned}
use onekey_balance_kit.Webhook.Signature.{
  remote_signature, hex_value, push_byte, hex_bytes, timing_safe_equal, validate_alchemy_signature,
}

-- A digit of a digest, and a digest: 64 hexadecimal digits in small letters.
abbrev pub IsDigit : ℕ → Type 0
IsDigit c = is_some (hex_value c) ≡ true

pub record IsDigest (s : Text) : Type 0 where
  pub digits : All IsDigit s
  pub long : length s ≡ 64

hex_value-injective : (a b v : ℕ) → hex_value a ≡ some v → hex_value b ≡ some v → a ≡ b
hex_value-injective a b v e f = ground arith

hex_value-lt : (a v : ℕ) → hex_value a ≡ some v → v < 16
hex_value-lt a v e = ground arith

byte-injective :
    (a b c d : ℕ) (xs ys : List ℕ)
    → IsDigit c
    → IsDigit d
    → push_byte (hex_value a) (hex_value b) xs ≡ push_byte (hex_value c) (hex_value d) ys
    → (a ≡ c) × (b ≡ d) × (xs ≡ ys)
byte-injective a b c d xs ys hc hd e =
    byte (hex_value a) refl (hex_value b) refl (hex_value c) refl (hex_value d) refl hc hd e
  where
    byte :
        (u : Option ℕ)
        → hex_value a ≡ u
        → (v : Option ℕ) → hex_value b ≡ v
        → (w : Option ℕ) → hex_value c ≡ w
        → (x : Option ℕ) → hex_value d ≡ x
        → is_some w ≡ true
        → is_some x ≡ true
        → push_byte u v xs ≡ push_byte w x ys
        → (a ≡ c) × (b ≡ d) × (xs ≡ ys)
    byte u p v q none r x t hw hx eq = cc
    byte u p v q (some w) r none t hw hx eq = cc
    byte none p v q (some w) r (some x) t hw hx eq = cc
    byte (some u) p none q (some w) r (some x) t hw hx eq = cc
    byte (some u) p (some v) q (some w) r (some x) t hw hx eq =
        let whole : 16 * u + v ≡ 16 * w + x = ground arith in
        let low : v ≡ x = omega (arith, whole, hex_value-lt b v q, hex_value-lt d x t) in
        let high : u ≡ w = omega (arith, whole, low) in
        (
          hex_value-injective a c w (p ∙ ap some high) r,
          hex_value-injective b d x (q ∙ ap some low) t,
          ground arith,
        )

hex_bytes-injective :
    (k : ℕ) (s t : Text)
    → All IsDigit t
    → length s ≡ k + k
    → length t ≡ k + k
    → hex_bytes s ≡ hex_bytes t
    → s ≡ t
hex_bytes-injective k [] [] h m n e = refl
hex_bytes-injective k [] (c ∷ t) h m n e = absurd (omega arith)
hex_bytes-injective k (c ∷ s) [] h m n e = absurd (omega arith)
hex_bytes-injective k (a ∷ []) t h m n e = absurd (omega arith)
hex_bytes-injective k (a ∷ b ∷ s) (c ∷ []) h m n e = absurd (omega arith)
hex_bytes-injective k (a ∷ b ∷ s) (c ∷ d ∷ t) h m n e =
    let (first, second, others) = byte-injective a b c d (hex_bytes s) (hex_bytes t) h.0 h.1.0 e in
    let rest = hex_bytes-injective (k - 1) s t h.1.1 (omega arith) (omega arith) others in
    rw (first, second, rest)

length-push_byte :
    (u v : Option ℕ) (xs : List ℕ)
    → is_some u ≡ true
    → is_some v ≡ true
    → length (push_byte u v xs) ≡ suc (length xs)
length-push_byte none v xs hu hv = cc
length-push_byte (some u) none xs hu hv = cc
length-push_byte (some u) (some v) xs hu hv = refl

push_byte-some :
    (k : ℕ) (u v : Option ℕ) (xs : List ℕ)
    → length (push_byte u v xs) ≡ suc k
    → (is_some u ≡ true) × (is_some v ≡ true) × (length xs ≡ k)
push_byte-some k none v xs e = absurd (omega arith)
push_byte-some k (some u) none xs e = absurd (omega arith)
push_byte-some k (some u) (some v) xs e = (refl, refl, omega arith)

length-hex_bytes : (k : ℕ) (s : Text) → All IsDigit s → length s ≡ k + k → length (hex_bytes s) ≡ k
length-hex_bytes k [] h n = omega arith
length-hex_bytes k (c ∷ []) h n = absurd (omega arith)
length-hex_bytes k (c ∷ d ∷ s) h n = omega (
  arith,
  n,
  length-push_byte (hex_value c) (hex_value d) (hex_bytes s) h.0 h.1.0,
  length-hex_bytes (k - 1) s h.1.1 (omega arith),
)

hex_bytes-AllDigits :
    (k : ℕ) (s : Text) → length s ≡ k + k → length (hex_bytes s) ≡ k → All IsDigit s
hex_bytes-AllDigits k [] n e = tt
hex_bytes-AllDigits k (c ∷ []) n e = absurd (omega arith)
hex_bytes-AllDigits k (c ∷ d ∷ s) n e =
    let (first, second, rest) =
      push_byte-some (k - 1) (hex_value c) (hex_value d) (hex_bytes s) (e ∙ omega (arith, n)) in
    (first, (second, hex_bytes-AllDigits (k - 1) s (omega (arith, n)) rest))

-- The answer on a signature of a length and with some bytes.
abbrev judged : ℕ → List ℕ → List ℕ → Reply Bool
judged n xs ys = if nat_beq n 64 then timing_safe_equal xs ys else returned false

judged-true :
    (n : ℕ) (xs ys : List ℕ) → judged n xs ys ≡ returned true → (n ≡ 64) × (text_beq xs ys ≡ true)
unfolding timing_safe_equal
judged-true n xs ys e = ground arith

judged_refl : (n : ℕ) (xs : List ℕ) → n ≡ 64 → judged n xs xs ≡ returned true
unfolding timing_safe_equal
judged_refl n xs e = ground (arith, text_beq_refl xs)

judged-length :
    (n : ℕ) (xs ys : List ℕ) (answer : Bool)
    → n ≡ 64
    → judged n xs ys ≡ returned answer
    → length xs ≡ length ys
unfolding timing_safe_equal
judged-length n xs ys answer h e = ground arith

validate-judged :
    (hmac : Text → Text → Text) (header raw key : Text)
    → truthy header ≡ true
    → truthy key ≡ true
    → validate_alchemy_signature hmac header (some raw) key
      ≡ judged
          (length (remote_signature header))
          (hex_bytes (remote_signature header))
          (hex_bytes (hmac key raw))
unfolding validate_alchemy_signature
validate-judged hmac header raw key hh hk = rw (hh, hk)

-- Where the HMAC gives a digest: a request with a body, a header and a key is accepted exactly if the
-- signature of the header, without its prefix and the space around it and in small letters, is the
-- digest of the body under the key.
pub validate_alchemy_signature_iff :
    (hmac : Text → Text → Text) (header raw key : Text)
    → truthy header ≡ true
    → truthy key ≡ true
    → IsDigest (hmac key raw)
    → (validate_alchemy_signature hmac header (some raw) key ≡ returned true)
      ↔ (remote_signature header ≡ hmac key raw)
validate_alchemy_signature_iff hmac header raw key hh hk digest = (
  λ e.
      let (long, same) = judged-true _ _ _ (sym (validate-judged hmac header raw key hh hk) ∙ e) in
      hex_bytes-injective 32 (remote_signature header) (hmac key raw) digest.digits long digest.long
        ((text_beq_iff _ _).0 same),
  λ e. validate-judged hmac header raw key hh hk ∙ rw e (judged_refl _ _ digest.long),
)

-- Where the HMAC gives a digest: a signature of 64 units is answered, with a yes or a no, only if all
-- of them are digits. On any other unit the comparison throws.
pub validate_alchemy_signature-returned :
    (hmac : Text → Text → Text) (header raw key : Text) (answer : Bool)
    → truthy header ≡ true
    → truthy key ≡ true
    → IsDigest (hmac key raw)
    → length (remote_signature header) ≡ 64
    → validate_alchemy_signature hmac header (some raw) key ≡ returned answer
    → All IsDigit (remote_signature header)
validate_alchemy_signature-returned hmac header raw key answer hh hk digest long e =
    hex_bytes-AllDigits 32 (remote_signature header) long (
      judged-length _ _ _ answer long (sym (validate-judged hmac header raw key hh hk) ∙ e)
      ∙ length-hex_bytes 32 (hmac key raw) digest.digits digest.long)
