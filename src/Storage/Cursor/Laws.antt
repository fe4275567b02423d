-- ===== src/Storage/Cursor/Laws.antt =====
-- What the cursor reads where the field that it looks for stands.
use wdlp.Base.{
  ℕ, ◌+◌, ◌<◌, ◌≤◌, ◌^◌, ◌%◌, ◌≡◌, refl, true, false, not, ◌||◌, [], ◌∷◌, ◌++◌, append_assoc,
  length, length-append, take-append, drop-append, all, arith, ltb, leb,
}
use wdlp.Base.Bytes.{Bytes, to_le_bytes, length-to_le_bytes, from_le_bytes-to_le_bytes}
use wdlp.Base.Reader.{
  usize_limit, Fits, Parses, Parses-bind, Parses-last, Parses-pure, Parses-reject_if,
}
use wdlp.Base.Utf8.{utf8_valid, utf8_valid_of_ascii, is_ascii}
use wdlp.Crypto.Aead.{sized}
use wdlp.Storage.Errors.{integrity_failure}
use wdlp.Storage.Cursor.{Cursor, take_bytes, integer, text, sized_text, is_id_byte, bad_text}

-- The cursor after `before`, in front of `after`.
abbrev pub at : Bytes → Bytes → Cursor
at before after = record { bytes = before ++ after; offset = length before }

at-append :
    (before field after : Bytes)
    → record { bytes = before ++ (field ++ after); offset = length before + length field }
      ≡ at (before ++ field) after
at-append before field after = rw (append_assoc, length-append) refl

in_range :
    (before field after : Bytes)
    → Fits before (field ++ after)
    → (leb usize_limit (length before + length field)
        || ltb (length (before ++ (field ++ after))) (length before + length field))
      ≡ false
in_range before field after h =
    ground (arith, length-append before (field ++ after), length-append field after)

pub take_bytes-Parses : (field : Bytes) → Parses at (take_bytes (length field)) field field
unfolding take_bytes
take_bytes-Parses field = record {
  run = λ before after h. rw (in_range before field after h, drop-append, take-append, at-append);
}

take_width :
    (width x : ℕ) → Parses at (take_bytes width) (to_le_bytes width x) (to_le_bytes width x)
take_width width x = rw (length-to_le_bytes width x) at (take_bytes-Parses (to_le_bytes width x))

pub integer-Parses :
    (width x : ℕ) → x < 256 ^ width → Parses at (integer width) (to_le_bytes width x) x
unfolding integer
integer-Parses width x fits =
    Parses-last _ (take_width width x) (rw (from_le_bytes-to_le_bytes width x fits) (Parses-pure x))

id_byte-ascii : (bs : Bytes) → all is_id_byte bs ≡ true → all is_ascii bs ≡ true
id_byte-ascii [] h = refl
id_byte-ascii (b ∷ bs) h = ground (arith, id_byte-ascii bs)

-- A text that passes the checks of `text` is UTF-8.
utf8_valid-bad_text : (bs : Bytes) → bad_text bs ≡ false → not (utf8_valid bs) ≡ false
utf8_valid-bad_text bs h = rw (utf8_valid_of_ascii bs (id_byte-ascii bs (ground arith))) refl

pub text-Parses :
    (field : Bytes) → bad_text field ≡ false → Parses at (text (length field)) field field
unfolding text
text-Parses field good = Parses-last _ (take_bytes-Parses field) (
    Parses-bind _ (Parses-reject_if integrity_failure (utf8_valid-bad_text field good))
      (Parses-bind _ (Parses-reject_if integrity_failure good) (Parses-pure field)))

pub bad_text-length : (bs : Bytes) → bad_text bs ≡ false → length bs ≤ 128
bad_text-length bs h = ground arith

pub sized_text-Parses :
    (field : Bytes) → bad_text field ≡ false → Parses at sized_text (sized field) field
unfolding sized_text
sized_text-Parses field good =
    let short = bad_text-length field good in
    let low : length field % 2 ^ 16 ≡ length field = omega arith in
    rw low (Parses-bind _ (integer-Parses 2 (length field) (omega arith)) (text-Parses field good))
