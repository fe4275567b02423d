-- ===== src/Storage/Format/Record.antt =====
-- `EncryptedRecordV1` of crates/dlp-storage/src/format.rs: sealing, opening, encoding, decoding.
pub mod RoundTrip
pub mod Sealing
pub mod Authenticity
use wdlp.Base.{
  ℕ, zero, suc, ◌+◌, ◌*◌, ◌-◌, ◌%◌, ◌^◌, ◌≡◌, Bool, true, false, not, ◌||◌, List, [], ◌∷◌, ◌++◌,
  length, drop, ltb, ◌==◌, if◌then◌else◌, Option, none, some,
}
use wdlp.Base.Bytes.{Bytes, bytes_eq, to_le_bytes}
use wdlp.Base.Results.{Result, ok, err}
use wdlp.Crypto.Aead.{
  RecordKind, chunk, manifest, commit, as_byte, nonce_length, sized, RecordAad, AeadCipher, encrypt,
  decrypt, NonceTracker, insert,
}
use wdlp.Storage.Errors.{integrity_failure, Outcome}
use wdlp.Base.Reader.{◌>>=◌, ◌>>◌, pure, from_option, reject_if, finish}
use wdlp.Storage.Cursor.{CursorRead, new, remaining, take_bytes, integer, sized_text}
use wdlp.Storage.Format.{EncryptedRecordV1, format_version_v1, magic, max_ciphertext, u16_max}

-- The bytes after the magic.
abbrev pub fields : EncryptedRecordV1 → Bytes
fields r =
    to_le_bytes 2 r.format_version
    ++ (sized r.store_id
        ++ (sized r.file_id
            ++ (to_le_bytes 8 r.generation
                ++ (to_le_bytes 1 (as_byte r.record_kind)
                    ++ (to_le_bytes 8 r.chunk_index
                        ++ (to_le_bytes 8 r.plaintext_length
                            ++ (r.nonce
                                ++ (to_le_bytes 8 (length r.ciphertext) ++ r.ciphertext))))))))

-- The bytes that `encode` writes past its guards.
abbrev pub wire : EncryptedRecordV1 → Bytes
wire r = magic ++ fields r

abbrev pub oversized : EncryptedRecordV1 → Bool
oversized r =
    ltb u16_max (length r.store_id)
    || ltb u16_max (length r.file_id)
    || ltb max_ciphertext (length r.ciphertext)

unfoldable pub encode : EncryptedRecordV1 → Outcome Bytes
encode r = if oversized r then err integrity_failure else ok (wire r)

abbrev pub kind_of_byte : ℕ → Option RecordKind
kind_of_byte b =
    if b == 1
    then some chunk
    else if b == 2
    then some manifest
    else if b == 3
    then some commit
    else none

read_kind : CursorRead RecordKind
read_kind = do byte ← integer 1; from_option integrity_failure (kind_of_byte byte)

-- `decode` after the test of the magic bytes
read_fields : CursorRead EncryptedRecordV1
read_fields = do
  format_version ← integer 2
  store_id ← sized_text
  file_id ← sized_text
  generation ← integer 8
  record_kind ← read_kind
  chunk_index ← integer 8
  plaintext_length ← integer 8
  nonce ← take_bytes nonce_length
  ciphertext_len ← integer 8
  reject_if integrity_failure
      (λ c. ltb max_ciphertext ciphertext_len || not (remaining c == ciphertext_len))
  ciphertext ← take_bytes ciphertext_len
  pure (record {
    format_version = format_version;
    store_id = store_id;
    file_id = file_id;
    generation = generation;
    record_kind = record_kind;
    chunk_index = chunk_index;
    plaintext_length = plaintext_length;
    nonce = nonce;
    ciphertext = ciphertext;
  })

read_record : CursorRead EncryptedRecordV1
unfolding read_fields read_kind
read_record = do
  prefix ← take_bytes 4
  reject_if integrity_failure (λ _. not (bytes_eq prefix magic))
  read_fields

unfoldable pub decode : Bytes → Outcome EncryptedRecordV1
unfolding read_record
decode bytes = finish (read_record (new bytes))

abbrev pub aad : EncryptedRecordV1 → RecordAad
aad r = record {
  format_version = r.format_version;
  store_id = r.store_id;
  file_id = r.file_id;
  generation = r.generation;
  record_kind = r.record_kind;
  chunk_index = r.chunk_index;
  plaintext_length = r.plaintext_length;
}
