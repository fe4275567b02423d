-- ===== src/Storage/Store/Flush/Records.antt =====
-- The records that a flush of crates/dlp-storage/src/store.rs leaves on the disk.
use wdlp.Base.{ℕ, ◌≡◌, sym, ◌∙◌, ap, true, false, Bool, length, some, any, inl, inr}
use wdlp.Base.Bytes.{Bytes, bytes_eq}
use wdlp.Base.Results.{ok, Result-cases}
use wdlp.Crypto.Aead.{RecordAad, AeadCipher, NonceTracker}
use wdlp.Storage.Format.{EncryptedRecordV1}
use wdlp.Storage.Format.Record
use wdlp.Storage.Format.Record.Sealing.{seal}
use wdlp.Storage.Store.{
  DurabilityFaultPoint, DiskPath, Environment, outside, Store, Run, ◌>>=◌, ◌>>◌,
}
use wdlp.Storage.Store.Disk.{same_path, write_record}
use wdlp.Storage.Store.Disk.Laws.{write_record-ok, write_record-other}
use wdlp.Storage.Store.Ensures.{
  Disk, Ensures, Ensures-bind, Ensures-hit, Ensures-outside, Ensures-weaken,
}
use wdlp.Storage.Store.Flush.{hit, seal_record, refuse_duplicate}

-- A record stands on the disk as it is encoded.
abbrev pub Stored : Disk → DiskPath → EncryptedRecordV1 → Type 0
Stored d path r = (bytes : Bytes) × (Record.encode r ≡ ok bytes) × (d path ≡ some bytes)

-- A condition on the disk that no change of the paths touched can break.
abbrev pub Fixes : (Disk → Type 0) → (DiskPath → Bool) → Type 0
Fixes P touched =
    (d d' : Disk) → ((path : DiskPath) → touched path ≡ false → d' path ≡ d path) → P d → P d'

pub Stored-Fixes :
    (path : DiskPath) (r : EncryptedRecordV1) (touched : DiskPath → Bool)
    → touched path ≡ false
    → Fixes (λ d. Stored d path r) touched
Stored-Fixes path r touched h d d' same (bytes, encoded, there) =
    (bytes, encoded, same path h ∙ there)

module _ (aead : AeadCipher) (key : Bytes) where
  -- The record that sealing returned, with some nonce of twelve bytes.
  abbrev pub Sealed : RecordAad → Bytes → NonceTracker → EncryptedRecordV1 → NonceTracker → Type 0
  Sealed a plaintext seen r seen' =
      (drawn : Bytes) × (length drawn ≡ 12) × (seal aead key drawn a plaintext seen ≡ ok (r, seen'))

module _ (aead : AeadCipher) (env : Environment) (store_id key : Bytes)
    (sized : (n : ℕ) → length (env.nonce n) ≡ 12) where
  refuse_duplicate-ok :
      (forced : Bool) (made made' : EncryptedRecordV1 × NonceTracker)
      → refuse_duplicate aead env forced made ≡ ok made'
      → made ≡ made'
  refuse_duplicate-ok true made made' h = cc
  refuse_duplicate-ok false made made' h = cc

  pub Ensures-seal :
      {P : Disk → Type 0} (file plaintext : Bytes) (a : RecordAad) (seen : NonceTracker)
      → Ensures store_id key P
          (seal_record aead env file a plaintext seen)
          (λ made d. Sealed aead key a plaintext seen made.0 made.1 × P d)
  unfolding seal_record
  Ensures-seal {P} file plaintext a seen = record {
    run = λ s {a = made} (same_id, same_key, holds).
        let drawn : Bytes = env.nonce s.world.calls in
        elim (Result-cases (seal aead s.key drawn a plaintext seen)) [
          | inr (e, failed) ↦ rw failed (λ h. cc)
          | inl (first, sealed) ↦ rw sealed (λ works.
              let same =
                refuse_duplicate-ok (any (bytes_eq file) s.forced_duplicate) first made works in
              (
                same_id,
                same_key,
                (
                  (
                    drawn,
                    sized s.world.calls,
                    ap (λ k. seal aead k drawn a plaintext seen) (sym same_key)
                        ∙ (sealed ∙ ap ok same),
                  ),
                  holds,
                ),
              ))
        ];
  }

  pub Ensures-write :
      {P : Disk → Type 0} (path : DiskPath) (r : EncryptedRecordV1)
      → same_path path path ≡ true
      → Fixes P (same_path path)
      → Ensures store_id key P (outside (write_record env path r)) (λ _ d. Stored d path r × P d)
  Ensures-write path r same fixes = Ensures-outside store_id key _ (λ w a holds works. (
    write_record-ok env path r w same works,
    fixes w.disk (write_record env path r w).1.disk
        (λ other h. write_record-other env path other r w h) holds,
  ))

  -- Sealing a record and writing it between two fault points, as each record of a generation is.
  pub Ensures-record :
      {P : Disk → Type 0} (file : Bytes) (first second : DurabilityFaultPoint) (path : DiskPath)
      (plaintext : Bytes) (a : RecordAad) (seen : NonceTracker)
      (Q : EncryptedRecordV1 × NonceTracker → Disk → Type 0) {B : Type 0}
      {next : EncryptedRecordV1 × NonceTracker → Run Store B} {R : B → Disk → Type 0}
      → same_path path path ≡ true
      → Fixes P (same_path path)
      → ((made : EncryptedRecordV1 × NonceTracker) (d : Disk)
          → Sealed aead key a plaintext seen made.0 made.1
          → Stored d path made.0
          → P d
          → Q made d)
      → ((made : EncryptedRecordV1 × NonceTracker) → Ensures store_id key (Q made) (next made) R)
      → Ensures store_id key P
          (seal_record aead env file a plaintext seen >>= λ made.
            hit first >> (outside (write_record env path made.0) >> (hit second >> next made)))
          R
  Ensures-record file first second path plaintext a seen Q same fixes known after =
      Ensures-bind store_id key _ (Ensures-seal file plaintext a seen) (λ made.
        Ensures-bind store_id key _ (Ensures-hit store_id key first) (λ _.
          Ensures-bind store_id key (λ _. Q made)
            (Ensures-weaken store_id key _
              (Ensures-write path made.0 same
                (λ d d' others (sealed, holds). (sealed, fixes d d' others holds)))
              (λ _ d (stored, (sealed, holds)). known made d sealed stored holds))
            (λ _. Ensures-bind store_id key _ (Ensures-hit store_id key second) (λ _. after made))))
