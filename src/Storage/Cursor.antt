-- ===== src/Storage/Cursor.antt =====
-- `Cursor` of crates/dlp-storage/src/format.rs: a reader that moves an offset over a byte slice.
pub mod Laws
use wdlp.Base.{
  ℕ, ◌+◌, ◌-◌, ◌<◌, ◌^◌, Bool, ◌&&◌, ◌||◌, not, List, [], ◌∷◌, length, take, drop, all, ltb, leb,
  ◌==◌, is_empty, if◌then◌else◌,
}
use wdlp.Base.Bytes.{Bytes, from_le_bytes}
use wdlp.Base.Reader.{Read, ◌>>=◌, ◌>>◌, pure, reject_if, usize_limit}
use wdlp.Base.Utf8.{utf8_valid, between}
use wdlp.Base.Results.{Result, ok, err}
use wdlp.Storage.Errors.{StorageError, integrity_failure}

pub record Cursor : Type 0 where
  pub bytes : Bytes
  pub offset : ℕ

abbrev pub new : Bytes → Cursor
new bytes = record { bytes = bytes; offset = 0 }

-- `saturating_sub` is the truncated subtraction of ℕ.
abbrev pub remaining : Cursor → ℕ
remaining c = length c.bytes - c.offset

abbrev pub CursorRead : Type 0 → Type 0
CursorRead A = Read Cursor StorageError A

-- `checked_add`, then `get(offset..end)`
unfoldable pub take_bytes : ℕ → CursorRead Bytes
take_bytes count c =
    let end = c.offset + count in
    if leb usize_limit end || ltb (length c.bytes) end
    then err integrity_failure
    else ok (take count (drop c.offset c.bytes), record c { offset = end })

-- `byte`, `u16`, `u32` and `u64`: little-endian integers of one, two, four and eight bytes
unfoldable pub integer : ℕ → CursorRead ℕ
integer width = do raw ← take_bytes width; pure (from_le_bytes raw)

abbrev pub is_id_byte : ℕ → Bool
is_id_byte b =
    between b'0' b'9' b || between b'A' b'Z' b || between b'a' b'z' b || b == b'-' || b == b'_'

abbrev pub bad_text : Bytes → Bool
bad_text text = is_empty text || ltb 128 (length text) || not (all is_id_byte text)

unfoldable pub text : ℕ → CursorRead Bytes
text count = do
  raw ← take_bytes count
  reject_if integrity_failure (λ _. not (utf8_valid raw))
  reject_if integrity_failure (λ _. bad_text raw)
  pure raw

-- A length in two bytes, and a text of that length: `let n = cursor.u16()?; cursor.text(n)?`
unfoldable pub sized_text : CursorRead Bytes
sized_text = do count ← integer 2; text count
