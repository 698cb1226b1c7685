-- ===== src/Webhook/Signature.antt =====
-- webhook/utils/signature-validator.ts. The HMAC of node's crypto module is not under src: it is an
-- argument that gives the digest in hexadecimal; `timingSafeEqual` throws on buffers of two lengths.
pub mod Digest
use onekey_balance_kit.Base.{
  ℕ, ◌+◌, ◌-◌, ◌*◌, Bool, true, false, ◌&&◌, ◌||◌, not, Option, none, some, List, [], ◌∷◌, Text,
  codes, truthy, text_beq, nat_beq, leb, ltb, to_lower, if◌then◌else◌, drop, length, starts_with,
  any,
}
use onekey_balance_kit.Cache.{Reply, returned, threw}

-- `/^sha256=|^0x/i`.
unfoldable pub strip_prefix : Text → Text
strip_prefix s =
    if starts_with (to_lower s) (codes "sha256=")
    then drop 7 s
    else if starts_with (to_lower s) (codes "0x")
    then drop 2 s
    else s

-- The units that `trim` takes off.
abbrev pub is_space : ℕ → Bool
is_space c =
    (leb 9 c && leb c 13)
    || any (λ d. nat_beq c d) (32 ∷ 160 ∷ 5760 ∷ 8232 ∷ 8233 ∷ 8239 ∷ 8287 ∷ 12288 ∷ 65279 ∷ [])
    || (leb 8192 c && leb c 8202)

abbrev pub trim_start : Text → Text
trim_start [] = []
trim_start (c ∷ s) = if is_space c then trim_start s else c ∷ s

-- The end is dropped where only units to trim follow.
abbrev pub push_trimmed : ℕ → Text → Text
push_trimmed c [] = if is_space c then [] else c ∷ []
push_trimmed c (d ∷ s) = c ∷ d ∷ s

abbrev pub trim_end : Text → Text
trim_end [] = []
trim_end (c ∷ s) = push_trimmed c (trim_end s)

unfoldable pub remote_signature : Text → Text
unfolding strip_prefix
remote_signature header = to_lower (trim_end (trim_start (strip_prefix header)))

-- The value of a hexadecimal digit; the text is in small letters.
abbrev pub hex_value : ℕ → Option ℕ
hex_value c =
    if leb b'0' c && leb c b'9'
    then some (c - b'0')
    else if leb b'a' c && leb c b'f'
    then some (c - b'a' + 10)
    else none

-- `Buffer.from(s, 'hex')`, which ends before the first pair that is none of digits.
abbrev pub push_byte : Option ℕ → Option ℕ → List ℕ → List ℕ
push_byte none lo rest = []
push_byte (some h) none rest = []
push_byte (some h) (some l) rest = (16 * h + l) ∷ rest

abbrev pub hex_bytes : Text → List ℕ
hex_bytes [] = []
hex_bytes (_ ∷ []) = []
hex_bytes (a ∷ b ∷ s) = push_byte (hex_value a) (hex_value b) (hex_bytes s)

unfoldable pub timing_safe_equal : List ℕ → List ℕ → Reply Bool
timing_safe_equal a b = if nat_beq (length a) (length b) then returned (text_beq a b) else threw

-- `validateAlchemySignature`; a missing header, body or key is `none`.
unfoldable pub validate_alchemy_signature :
    (Text → Text → Text) → Text → Option Text → Text → Reply Bool
unfolding timing_safe_equal
validate_alchemy_signature hmac header body key = elim body [
  | none ↦ returned false
  | some raw ↦
      if truthy header && truthy key
      then (if nat_beq (length (remote_signature header)) 64
          then timing_safe_equal (hex_bytes (remote_signature header)) (hex_bytes (hmac key raw))
          else returned false)
      else returned false
]
