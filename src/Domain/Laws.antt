-- ===== src/Domain/Laws.antt =====
-- Which byte strings are identifiers, and that they are safe as names of files and columns.
use wdlp.Base.{
  ℕ, ◌≡◌, ◌≤◌, ◌<◌, ◌≢◌, ◌↔◌, refl, ap, Bool, true, false, ◌&&◌, [], ◌∷◌, length, all, All, arith,
}
use mathlib.Core.Path.{ap₂}
use wdlp.Base.Bytes.{Bytes}
use wdlp.Base.Results.{ok}
use wdlp.Domain.{parse_identifier, id_byte, bad_identifier}
use wdlp.Storage.Cursor.{bad_text, is_id_byte}

-- A printable byte that separates no paths, columns or lines.
abbrev pub IsPlain : ℕ → Type 0
IsPlain b = (32 < b) × (b < 127) × (b ≢ b'/') × (b ≢ b'\\') × (b ≢ b':')

IsPlain-bytes : (allow_dot : Bool) (bs : Bytes) → all (id_byte allow_dot) bs ≡ true → All IsPlain bs
IsPlain-bytes allow_dot [] h = tt
IsPlain-bytes allow_dot (b ∷ bs) h = (ground arith, IsPlain-bytes allow_dot bs (ground arith))

pub record IsSafeName (v : Bytes) : Type 0 where
  pub not_empty : 1 ≤ length v
  pub short : length v ≤ 128
  pub plain : All IsPlain v
  pub not_dot : v ≢ b'.' ∷ []
  pub not_dots : v ≢ b'.' ∷ b'.' ∷ []

good-not_dot : (allow_dot : Bool) → bad_identifier allow_dot (b'.' ∷ []) ≡ true
good-not_dot true = refl
good-not_dot false = refl

good-not_dots : (allow_dot : Bool) → bad_identifier allow_dot (b'.' ∷ b'.' ∷ []) ≡ true
good-not_dots true = refl
good-not_dots false = refl

-- An identifier that is parsed is the value given, unchanged; it has 1 to 128 bytes, all of them
-- printable and none a separator of paths or columns, and it is not "." or "..", with or without
-- the dots that device identifiers may have.
pub parse_identifier-IsSafeName :
    (allow_dot : Bool) (value : Bytes) {id : Bytes}
    → parse_identifier allow_dot value ≡ ok id
    → (id ≡ value) × IsSafeName value
unfolding parse_identifier
parse_identifier-IsSafeName allow_dot [] h = cc
parse_identifier-IsSafeName allow_dot (b ∷ bs) h =
    let good : bad_identifier allow_dot (b ∷ bs) ≡ false = ground arith in
    (
      ground arith,
      record {
        not_empty = omega arith;
        short = ground arith;
        plain = IsPlain-bytes allow_dot (b ∷ bs) (ground arith);
        not_dot = λ e. cc (good-not_dot allow_dot, ap (bad_identifier allow_dot) e);
        not_dots = λ e. cc (good-not_dots allow_dot, ap (bad_identifier allow_dot) e);
      },
    )

opaque_byte : (b : ℕ) → id_byte false b ≡ is_id_byte b
opaque_byte b = ground arith

opaque_bytes : (bs : Bytes) → all (id_byte false) bs ≡ all is_id_byte bs
opaque_bytes [] = refl
opaque_bytes (b ∷ bs) = ap₂ (λ x y. x && y) (opaque_byte b) (opaque_bytes bs)

-- Every store and file identifier that the domain accepts is a text that the record decoders
-- accept, and the other way round.
pub parse_opaque-bad_text_iff :
    (value : Bytes) → (parse_identifier false value ≡ ok value) ↔ (bad_text value ≡ false)
unfolding parse_identifier
parse_opaque-bad_text_iff [] = (λ h. cc, λ h. cc)
parse_opaque-bad_text_iff (b ∷ bs) = ground (arith, opaque_bytes (b ∷ bs))
