-- ===== src/Agent/Cache/Hex.antt =====
-- The module `hex` of crates/dlp-agent-core/src/config_cache.rs: the names of staged bundles.
use wdlp.Base.{
  ℕ, ◌+◌, ◌-◌, ◌*◌, ◌/◌, ◌%◌, ◌<◌, ◌≡◌, refl, ap, true, false, ltb, ◌==◌, [], ◌∷◌, length, All,
  if◌then◌else◌, Option, none, some, arith,
}
use wdlp.Base.Bytes.{Bytes, IsByte}
use wdlp.Base.Utf8.{between}

abbrev pub hex_digit : ℕ → ℕ
hex_digit d = if ltb d 10 then d + b'0' else d - 10 + b'a'

-- `format!("{byte:02x}")` for each byte
unfoldable pub encode : Bytes → Bytes
encode [] = []
encode (b ∷ bs) = hex_digit (b / 16) ∷ hex_digit (b % 16) ∷ encode bs

abbrev pub digit_value : ℕ → Option ℕ
digit_value c =
    if between b'0' b'9' c
    then some (c - b'0')
    else if between b'a' b'f' c
    then some (c - b'a' + 10)
    else if between b'A' b'F' c
    then some (c - b'A' + 10)
    else none

abbrev pub two_digits : Option ℕ → Option ℕ → Option ℕ
two_digits (some high) (some low) = some (high * 16 + low)
two_digits _ _ = none

-- `u8::from_str_radix(chunk, 16)` of two characters, the first of which may be a plus sign
abbrev pub pair_value : ℕ → ℕ → Option ℕ
pair_value a b = if a == b'+' then digit_value b else two_digits (digit_value a) (digit_value b)

abbrev pub cons_value : Option ℕ → Option Bytes → Option Bytes
cons_value (some b) (some bs) = some (b ∷ bs)
cons_value _ _ = none

abbrev pub parse_pairs : Bytes → Option Bytes
parse_pairs [] = some []
parse_pairs (a ∷ []) = none
parse_pairs (a ∷ b ∷ rest) = cons_value (pair_value a b) (parse_pairs rest)

unfoldable pub parse : Bytes → Option Bytes
parse value = if length value == 64 then parse_pairs value else none

pub length-encode : (digest : Bytes) → length (encode digest) ≡ 2 * length digest
unfolding encode
length-encode [] = omega arith
length-encode (b ∷ bs) = omega (arith, length-encode bs)

digit_value-hex_digit : (d : ℕ) → d < 16 → digit_value (hex_digit d) ≡ some d
digit_value-hex_digit d h = ground arith

not_plus : (d : ℕ) → d < 16 → (hex_digit d == b'+') ≡ false
not_plus d h = ground arith

parse_pairs-encode :
    (digest : Bytes) → All IsByte digest → parse_pairs (encode digest) ≡ some digest
unfolding encode
parse_pairs-encode [] h = refl
parse_pairs-encode (b ∷ bs) (h, hs) =
    let value : b / 16 * 16 + b % 16 ≡ b = omega arith in
    let high = digit_value-hex_digit (b / 16) (omega arith) in
    let low = digit_value-hex_digit (b % 16) (omega arith) in
    let pair : pair_value (hex_digit (b / 16)) (hex_digit (b % 16)) ≡ some b =
      rw (not_plus (b / 16) (omega arith), high, low) (ap some value) in
    rw (pair, parse_pairs-encode bs hs) refl

-- The name of a digest of 32 bytes is parsed back to it.
pub parse-encode :
    (digest : Bytes) → length digest ≡ 32 → All IsByte digest → parse (encode digest) ≡ some digest
unfolding parse
parse-encode digest size bytes =
    let long : (length (encode digest) == 64) ≡ true = ground (arith, length-encode digest) in
    rw long (parse_pairs-encode digest bytes)
