-- ===== src/Storage/Format/Record/RoundTrip.antt =====
-- A record that is encoded is decoded to itself.
use wdlp.Base.{
  ◌+◌, ◌^◌, ◌≡◌, ◌<◌, ◌≤◌, refl, false, not, ◌||◌, [], length, ltb, ◌==◌, some, arith,
  length-append, ap,
}
use wdlp.Base.Bytes.{Bytes, to_le_bytes, bytes_eq_refl, length-to_le_bytes}
use wdlp.Base.Results.{ok}
use wdlp.Base.Reader.{
  reject_if, finish, Fits, Parses, Parses-last, Ends-last, Parses-reject_if, Parses-from_option,
  Ends, Ends-bind, Ends-check, Ends-pure,
}
use wdlp.Crypto.Aead.{RecordKind, chunk, manifest, commit, as_byte}
use wdlp.Storage.Errors.{integrity_failure}
use wdlp.Storage.Cursor.{remaining, bad_text}
use wdlp.Storage.Cursor.Laws.{
  at, take_bytes-Parses, integer-Parses, sized_text-Parses, bad_text-length,
}
use wdlp.Storage.Format.{EncryptedRecordV1, magic, max_ciphertext}
use wdlp.Storage.Format.Record.{
  encode, decode, read_kind, read_fields, read_record, fields, wire, kind_of_byte,
}

-- The ranges of the Rust types, and identifiers that the store's own readers accept.
pub record IsStorable (r : EncryptedRecordV1) : Type 0 where
  pub version_fits : r.format_version < 2 ^ 16
  pub generation_fits : r.generation < 2 ^ 64
  pub index_fits : r.chunk_index < 2 ^ 64
  pub length_fits : r.plaintext_length < 2 ^ 64
  pub nonce_sized : length r.nonce ≡ 12
  pub store_good : bad_text r.store_id ≡ false
  pub file_good : bad_text r.file_id ≡ false

kind_of_byte-as_byte : (k : RecordKind) → kind_of_byte (as_byte k) ≡ some k
kind_of_byte-as_byte chunk = refl
kind_of_byte-as_byte manifest = refl
kind_of_byte-as_byte commit = refl

as_byte-lt : (k : RecordKind) → as_byte k < 256
as_byte-lt chunk = omega arith
as_byte-lt manifest = omega arith
as_byte-lt commit = omega arith

read_kind-Parses : (k : RecordKind) → Parses at read_kind (to_le_bytes 1 (as_byte k)) k
unfolding read_kind
read_kind-Parses k =
    Parses-last _ (integer-Parses 1 (as_byte k) (as_byte-lt k))
      (Parses-from_option integrity_failure (kind_of_byte-as_byte k))

module _ (r : EncryptedRecordV1) (h : IsStorable r)
    (small : length r.ciphertext ≤ max_ciphertext) where
  ends_there :
      (before : Bytes)
      → reject_if integrity_failure
          (λ c.
            ltb max_ciphertext (length r.ciphertext) || not (remaining c == length r.ciphertext))
          (at before r.ciphertext)
        ≡ ok (tt, at before r.ciphertext)
  unfolding reject_if
  ends_there before = ground (arith, length-append before r.ciphertext)

  read_fields-Ends : Ends at read_fields (fields r) r
  unfolding read_fields
  read_fields-Ends = Ends-bind _ (integer-Parses 2 r.format_version h.version_fits) (
      Ends-bind _ (sized_text-Parses r.store_id h.store_good) (
        Ends-bind _ (sized_text-Parses r.file_id h.file_good) (
          Ends-bind _ (integer-Parses 8 r.generation h.generation_fits) (
            Ends-bind _ (read_kind-Parses r.record_kind) (
              Ends-bind _ (integer-Parses 8 r.chunk_index h.index_fits) (
                Ends-bind _ (integer-Parses 8 r.plaintext_length h.length_fits) (
                  Ends-bind _ (rw h.nonce_sized at (take_bytes-Parses r.nonce)) (
                    Ends-bind _ (integer-Parses 8 (length r.ciphertext) (omega arith)) (
                      Ends-check _ _ (λ before. ends_there before)
                        (Ends-last _ (take_bytes-Parses r.ciphertext) (Ends-pure r)))))))))))

  read_record-Ends : Ends at read_record (wire r) r
  unfolding read_record
  read_record-Ends = Ends-bind _ {first = magic} {second = fields r} (take_bytes-Parses magic) (
      Ends-bind _ (Parses-reject_if integrity_failure (rw (bytes_eq_refl magic) refl))
        read_fields-Ends)

  length-fields :
      length (fields r) ≡ 51 + length r.store_id + length r.file_id + length r.ciphertext
  length-fields = simp (length-append, length-to_le_bytes, h.nonce_sized) (omega arith)

  wire-Fits : Fits [] (wire r)
  wire-Fits =
      let a = bad_text-length r.store_id h.store_good in
      let b = bad_text-length r.file_id h.file_good in omega (arith, length-fields)

  -- A storable record is what decoding returns from the bytes that encoding writes.
  pub decode-wire : decode (wire r) ≡ ok r
  unfolding decode
  decode-wire = ap finish (read_record-Ends.run [] wire-Fits)

-- Encoding a storable record whose ciphertext is not oversized succeeds, and decoding the bytes
-- returns the record.
pub record_decode-encode :
    (r : EncryptedRecordV1)
    → IsStorable r
    → length r.ciphertext ≤ max_ciphertext
    → (bytes : Bytes) × (encode r ≡ ok bytes) × (decode bytes ≡ ok r)
unfolding encode
record_decode-encode r h small =
    let a = bad_text-length r.store_id h.store_good in
    let b = bad_text-length r.file_id h.file_good in (wire r, ground arith, decode-wire r h small)
