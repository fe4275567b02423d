-- ===== src/Storage/Store/Content/Yields.antt =====
-- Reading, in crates/dlp-storage/src/store.rs, on a host whose calls all succeed: the disk stays as
-- it is, and determines what is read.
use wdlp.Base.{
  ℕ, ◌+◌, ◌≡◌, ◌<◌, ◌≤◌, ◌^◌, refl, ap, sym, ◌∙◌, subst, none, some, Bool, false, length, arith,
  ==_refl, ◌∷◌,
}
use wdlp.Base.Bytes.{Bytes, bytes_eq_refl}
use wdlp.Base.Results.{ok}
use wdlp.Crypto.Aead.{RecordKind, as_byte, AeadCipher, NonceTracker, canonical_bytes}
use wdlp.Crypto.Aead.{seen as seen_in}
use wdlp.Storage.Cursor.{bad_text}
use wdlp.Storage.Errors.{Outcome, StorageError}
use wdlp.Storage.Format.{EncryptedRecordV1, max_ciphertext}
use wdlp.Storage.Format.Record
use wdlp.Storage.Format.Record.Authenticity.{seal-cases, open_record-seal}
use wdlp.Storage.Format.Record.RoundTrip.{IsStorable, record_decode-encode}
use wdlp.Storage.Format.Record.Sealing.{open_record, sealed_record}
use wdlp.Storage.Store.{
  DiskPath, Environment, World, Run, ◌>>=◌, pure, lift, refuse_if, system_call,
}
use wdlp.Storage.Store.Content.{ensure_identity, read_record, read_own}
use wdlp.Storage.Store.Ensures.{Disk}
use wdlp.Storage.Store.Flush.{file_aad}
use wdlp.Storage.Store.Flush.Records.{Stored, Sealed}

module _ (d : Disk) where
  pub record Yields {A : Type 0} (m : Run World A) (a : A) : Type 0 where
    pub run : (w : World) → w.disk ≡ d → ((m w).0 ≡ ok a) × ((m w).1.disk ≡ d)

  pub Yields-bind :
      {A B : Type 0} {m : Run World A} (k : A → Run World B) (a : A) {b : B}
      → Yields m a
      → Yields (k a) b
      → Yields (m >>= k) b
  Yields-bind {m = m} k a h h' = record {
    run = λ w e. let (first, stays) = h.run w e in rw first (h'.run (m w).1 stays);
  }

  pub Yields-pure : {A : Type 0} (a : A) → Yields (pure a) a
  Yields-pure a = record { run = λ w e. (refl, e) }

  pub Yields-lift : {A : Type 0} {r : Outcome A} {a : A} → r ≡ ok a → Yields (lift r) a
  Yields-lift h = record { run = λ w e. (h, e) }

  pub Yields-refuse_if : (bad : Bool) (x : StorageError) → bad ≡ false → Yields (refuse_if bad x) tt
  Yields-refuse_if bad x h = record { run = λ w e. rw h (refl, e) }

encode-small :
    (r : EncryptedRecordV1) {bytes : Bytes}
    → Record.encode r ≡ ok bytes
    → length r.ciphertext ≤ max_ciphertext
unfolding Record.encode
encode-small r h = ground arith

same_bytes :
    {r : EncryptedRecordV1} {bytes bytes' : Bytes}
    → Record.encode r ≡ ok bytes
    → Record.encode r ≡ ok bytes'
    → Record.decode bytes' ≡ ok r
    → Record.decode bytes ≡ ok r
same_bytes h h' e = cc

module _ (aead : AeadCipher) (env : Environment) (calm : (n : ℕ) → env.fault n ≡ none)
    (d : Disk) where
  system_call-Yields : Yields d (system_call env) tt
  unfolding system_call
  system_call-Yields = record { run = λ w e. rw (calm w.calls) (refl, e) }

  read_record-Yields :
      (path : DiskPath) {r : EncryptedRecordV1} {bytes : Bytes}
      → d path ≡ some bytes
      → Record.decode bytes ≡ ok r
      → Yields d (read_record env path) r
  unfolding read_record
  read_record-Yields path {r} {bytes} there decoded = record {
    run = λ w e. rw (ap (λ (x : Disk). x path) e ∙ there) (
        (Yields-bind d _ tt system_call-Yields
            (Yields-bind d _ tt system_call-Yields (Yields-lift d decoded))).run
          w e);
  }

  module _ (store_id key file : Bytes) (generation : ℕ) (store_good : bad_text store_id ≡ false)
      (file_good : bad_text file ≡ false) (generation_fits : generation < 2 ^ 64) where
    -- What reading a record finds that was sealed for the file, and stored.
    pub record Found (path : DiskPath) (kind : RecordKind) (index : ℕ) (plaintext : Bytes)
        (seen : NonceTracker) (r : EncryptedRecordV1) (seen' : NonceTracker) : Type 0 where
      pub reads : Yields d (read_own aead env store_id key file path kind index) r
      pub opens : open_record aead key r ≡ ok plaintext
      pub generation_same : r.generation ≡ generation
      pub length_same : r.plaintext_length ≡ length plaintext
      pub is_new : seen_in seen r.nonce ≡ false
      pub remembered : seen' ≡ r.nonce ∷ seen
      pub bounded : length plaintext + 16 ≤ max_ciphertext

    sealed-identity :
        (kind : RecordKind) (index n : ℕ) (nonce ciphertext : Bytes)
        → ensure_identity store_id file kind index
            (sealed_record (file_aad store_id file generation kind index n) nonce ciphertext)
          ≡ ok tt
    unfolding ensure_identity
    sealed-identity kind index n nonce ciphertext =
        rw (bytes_eq_refl store_id, bytes_eq_refl file, ==_refl (as_byte kind), ==_refl index) refl

    pub Found-Sealed :
        (path : DiskPath) (kind : RecordKind) (index : ℕ) (plaintext : Bytes) (seen : NonceTracker)
        (r : EncryptedRecordV1) (seen' : NonceTracker)
        → index < 2 ^ 64
        → Sealed aead key
            (file_aad store_id file generation kind index (length plaintext))
            plaintext
            seen
            r
            seen'
        → Stored d path r
        → Found path kind index plaintext seen r seen'
    unfolding read_own
    Found-Sealed path kind index plaintext seen r seen' index_fits (drawn, sized, sealed)
          (bytes, encoded, there) =
        let a = file_aad store_id file generation kind index (length plaintext) in
        let (made, shape, fresh, remembered) = seal-cases aead key drawn a plaintext seen sealed in
        let small = encode-small r encoded in
        let bounded : length plaintext + 16 ≤ max_ciphertext =
          omega
            (arith, aead.length-seal key drawn (canonical_bytes a) plaintext r.ciphertext made) in
        let short : length plaintext < 2 ^ 64 = omega arith in
        let storable : IsStorable r = subst IsStorable (sym shape) (record {
          version_fits = omega arith;
          generation_fits = generation_fits;
          index_fits = index_fits;
          length_fits = short;
          nonce_sized = sized;
          store_good = store_good;
          file_good = file_good;
        }) in
        let (bytes', encoded', decoded) = record_decode-encode r storable small in
        let nonce_is : r.nonce ≡ drawn = ap (λ (x : EncryptedRecordV1). x.nonce) shape in
        record {
          reads =
              Yields-bind d _ r
                (read_record-Yields path there (same_bytes encoded encoded' decoded))
                (Yields-bind d _ tt
                  (Yields-lift d {r = ensure_identity store_id file kind index r}
                    (rw shape (sealed-identity kind index (length plaintext) drawn r.ciphertext)))
                  (Yields-pure d r));
          opens = open_record-seal aead key a plaintext drawn seen refl refl short sealed;
          generation_same = ap (λ (x : EncryptedRecordV1). x.generation) shape;
          length_same = ap (λ (x : EncryptedRecordV1). x.plaintext_length) shape;
          is_new = rw nonce_is fresh;
          remembered = rw nonce_is remembered;
          bounded = bounded;
        }
