-- ===== src/Storage/Format/Record/Authenticity.antt =====
-- What sealing and opening a record promise together, through the disk and across the header.
use wdlp.Base.{◌*◌, ◌^◌, ◌≡◌, ◌<◌, ◌≤◌, false, [], ◌∷◌, length, some, arith}
use wdlp.Base.Bytes.{Bytes}
use wdlp.Base.Results.{ok}
use wdlp.Crypto.Aead.{
  RecordAad, AeadCipher, encrypt, decrypt, NonceTracker, insert, canonical_bytes, seen,
}
use wdlp.Storage.Format.{EncryptedRecordV1, max_ciphertext}
use wdlp.Storage.Format.Record.{encode, decode}
use wdlp.Storage.Format.Record.RoundTrip.{IsStorable, record_decode-encode}
use wdlp.Storage.Format.Record.Sealing.{seal, open_record, sealed_record}

module _ (aead : AeadCipher) (key : Bytes) where
  -- Sealing succeeds exactly when the cipher does and the nonce is new; it then returns the header,
  -- the nonce and the ciphertext, and remembers the nonce.
  pub seal-cases :
      (drawn : Bytes) (a : RecordAad) (plaintext : Bytes) (nonces : NonceTracker)
      {r : EncryptedRecordV1} {nonces' : NonceTracker}
      → seal aead key drawn a plaintext nonces ≡ ok (r, nonces')
      → (aead.seal key drawn (canonical_bytes a) plaintext ≡ some r.ciphertext)
        × (r ≡ sealed_record a drawn r.ciphertext)
        × (seen nonces drawn ≡ false)
        × (nonces' ≡ drawn ∷ nonces)
  unfolding seal encrypt insert
  seal-cases drawn a plaintext nonces h = ground arith

  decrypt-seal :
      (drawn : Bytes) (a : RecordAad) (plaintext ciphertext : Bytes)
      → aead.seal key drawn (canonical_bytes a) plaintext ≡ some ciphertext
      → decrypt aead key a drawn ciphertext ≡ ok plaintext
  unfolding decrypt
  decrypt-seal drawn a plaintext ciphertext h =
      rw (aead.open_sealed-seal key drawn (canonical_bytes a) plaintext ciphertext h, decrypt)

  open_sealed_record :
      (a : RecordAad) (drawn plaintext ciphertext : Bytes)
      → a.format_version ≡ 1
      → a.plaintext_length ≡ length plaintext
      → length plaintext < 2 ^ 64
      → decrypt aead key a drawn ciphertext ≡ ok plaintext
      → open_record aead key (sealed_record a drawn ciphertext) ≡ ok plaintext
  unfolding open_record
  open_sealed_record a drawn plaintext ciphertext version exact short back = ground arith

  module _ (a : RecordAad) (plaintext drawn : Bytes) (nonces : NonceTracker)
      (version : a.format_version ≡ 1) (exact : a.plaintext_length ≡ length plaintext)
      (short : length plaintext < 2 ^ 64) {r : EncryptedRecordV1} {nonces' : NonceTracker}
      (sealed : seal aead key drawn a plaintext nonces ≡ ok (r, nonces')) where
    -- A sealed record opens to the plaintext, under the same key.
    pub open_record-seal : open_record aead key r ≡ ok plaintext
    open_record-seal =
        let (made, shape, _, _) = seal-cases drawn a plaintext nonces sealed in
        let back = decrypt-seal drawn a plaintext r.ciphertext made in
        rw shape (open_sealed_record a drawn plaintext r.ciphertext version exact short back)

  module _ (a : RecordAad) (plaintext drawn : Bytes) (nonces : NonceTracker)
      (storable : IsStorable (sealed_record a drawn [])) (version : a.format_version ≡ 1)
      (exact : a.plaintext_length ≡ length plaintext) (chunked : length plaintext ≤ 4 * 1024 * 1024)
      {r : EncryptedRecordV1} {nonces' : NonceTracker}
      (sealed : seal aead key drawn a plaintext nonces ≡ ok (r, nonces')) where
    sealed-IsStorable : IsStorable r
    sealed-IsStorable =
        let (made, shape, _, _) = seal-cases drawn a plaintext nonces sealed in
        rw shape (record {
          version_fits = storable.version_fits;
          generation_fits = storable.generation_fits;
          index_fits = storable.index_fits;
          length_fits = storable.length_fits;
          nonce_sized = storable.nonce_sized;
          store_good = storable.store_good;
          file_good = storable.file_good;
        })

    sealed-small : length r.ciphertext ≤ max_ciphertext
    sealed-small =
        let (made, _, _, _) = seal-cases drawn a plaintext nonces sealed in
        omega (arith, aead.length-seal key drawn (canonical_bytes a) plaintext r.ciphertext made)

    -- A chunk that is sealed and encoded is found again: the bytes decode to the record, and the
    -- record opens to the plaintext of the chunk.
    pub stored_chunk :
        (bytes : Bytes) × (encode r ≡ ok bytes)
        × (decode bytes ≡ ok r)
        × (open_record aead key r ≡ ok plaintext)
    stored_chunk =
        let (bytes, written, found) = record_decode-encode r sealed-IsStorable sealed-small in
        (
          bytes,
          written,
          found,
          open_record-seal a plaintext drawn nonces version exact (omega arith) sealed,
        )
