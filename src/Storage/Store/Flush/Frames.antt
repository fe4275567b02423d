-- ===== src/Storage/Store/Flush/Frames.antt =====
-- What the steps of a flush leave alone, and the step that moves the pointer.
use wdlp.Base.{ℕ, ◌≡◌, refl, ap, false, inl, inr, Option, some, Bool-cases}
use wdlp.Base.Bytes.{Bytes}
use wdlp.Base.Maps.{Map, text_key, remove}
use wdlp.Base.Results.{ok, err, Result-cases}
use wdlp.Crypto.Aead.{RecordAad, AeadCipher, NonceTracker}
use wdlp.Storage.Errors.{StorageError}
use wdlp.Storage.Format.{EncryptedRecordV1}
use wdlp.Storage.Format.Record
use wdlp.Storage.Format.Record.Sealing.{seal}
use wdlp.Storage.Store.{
  DurabilityFaultPoint, before_pointer_replace, after_pointer_replace, before_directory_flush,
  after_directory_flush, DiskPath, selected_commit, previous_commit, file_marker, chunk_rec,
  manifest_rec, commit_rec, Environment, Store, Run, outside, system_call,
}
use wdlp.Storage.Store.Keeps.{Keeps, Keeps-bind}
use wdlp.Storage.Store.Disk.{same_path, write_record, flush_directory_marker}
use wdlp.Storage.Store.Disk.Laws.{write_record-other, flush_directory_marker-other}
use wdlp.Storage.Store.Flush.{
  hit, is_point, seal_record, keep_prior, publish_pointer, flush_marker, finish_flush,
}
use wdlp.Storage.Store.Flush.Pointer.{
  Selects, Backed, keep_prior-selected, keep_prior-Backed, replace_pointer-Selects,
  replace_pointer-ok,
}
use wdlp.Storage.Store.Flush.Generation.{IsInner}

pub hit-staged : (point : DurabilityFaultPoint) (s : Store) → (hit point s).1.staged ≡ s.staged
unfolding hit
hit-staged point s = elim (Bool-cases (is_point point s.fault_io.fault)) [
  | inl fails ↦ rw fails refl
  | inr passes ↦ rw passes refl
]

pub hit-world : (point : DurabilityFaultPoint) (s : Store) → (hit point s).1.world ≡ s.world
unfolding hit
hit-world point s = elim (Bool-cases (is_point point s.fault_io.fault)) [
  | inl fails ↦ rw fails refl
  | inr passes ↦ rw passes refl
]

module _ (aead : AeadCipher) (env : Environment) (file : Bytes) where
  -- What is staged, and the two pointers of the file.
  abbrev pub pointers : Store → Map Bytes Bytes × (Option Bytes × Option Bytes)
  pointers s =
      (s.staged, (s.world.disk (selected_commit file), s.world.disk (previous_commit file)))

  hit-Keeps : (point : DurabilityFaultPoint) → Keeps pointers (hit point)
  hit-Keeps point = record {
    keep = λ s i. (
      hit-staged point s i,
      (
        (hit-world point s i).disk (selected_commit file),
        (hit-world point s i).disk (previous_commit file),
      ),
    );
  }

  seal_record-Keeps :
      (file' : Bytes) (aad : RecordAad) (plaintext : Bytes) (seen : NonceTracker)
      → Keeps pointers (seal_record aead env file' aad plaintext seen)
  unfolding seal_record
  seal_record-Keeps file' aad plaintext seen = record {
    keep = λ s. elim (Result-cases (seal aead s.key (env.nonce s.world.calls) aad plaintext seen)) [
      | inl (made, sealed) ↦ rw sealed refl
      | inr (e, failed) ↦ rw failed refl
    ];
  }

  pub pointers-IsInner : (generation : ℕ) → IsInner pointers aead env file generation
  unfolding same_path system_call
  pointers-IsInner generation = record {
    spent = hit-Keeps;
    sealing = seal_record-Keeps;
    directory = record { keep = λ s. refl };
    chunk_write = λ n r. off (chunk_rec file generation n) r refl refl;
    manifest_write = λ r. off (manifest_rec file generation) r refl refl;
    commit_write = λ r. off (commit_rec file generation) r refl refl;
  }
    where
      off :
          (path : DiskPath) (r : EncryptedRecordV1)
          → same_path path (selected_commit file) ≡ false
          → same_path path (previous_commit file) ≡ false
          → Keeps pointers (outside (write_record env path r))
      off path r h k = record {
        keep = λ s i. (
          s.staged,
          (
            write_record-other env path (selected_commit file) r s.world h i,
            write_record-other env path (previous_commit file) r s.world k i,
          ),
        );
      }

  pub publish_pointer-Selects :
      (generation : ℕ) (sealed : EncryptedRecordV1) (s : Store)
      → ((n : ℕ) → env.unseen n ≡ false)
      → Selects env file
          (s.world.disk (selected_commit file))
          sealed
          (publish_pointer aead env file generation sealed s).1.world
  unfolding publish_pointer
  publish_pointer-Selects generation sealed s seen =
      let t : Store = record s { world = (keep_prior env file s.world).1 } in
      let u : Store = (hit before_pointer_replace t).1 in
      let old : Option Bytes = s.world.disk (selected_commit file) in
      elim (Result-cases (keep_prior env file s.world).0) [
        | inr (e, failed) ↦ rw failed (inl (keep_prior-selected env file s.world))
        | inl (_, done) ↦
            let backed : Backed env file old u.world =
              rw (hit-world before_pointer_replace t)
                (keep_prior-Backed env file s.world (seen s.world.calls) done) in
            elim (Result-cases (hit before_pointer_replace t).0) [
              | inr (e, failed) ↦ rw (done, failed) (inl backed.0)
              | inl (_, passed) ↦
                  rw (done, passed)
                    (replace_pointer-Selects env file generation sealed u.world old backed)
            ]
      ]

  marker-Keeps : Keeps pointers (outside (flush_directory_marker env (file_marker file)))
  unfolding same_path
  marker-Keeps = record {
    keep = λ s i. (
      s.staged,
      (
        flush_directory_marker-other env (file_marker file) (selected_commit file) s.world refl i,
        flush_directory_marker-other env (file_marker file) (previous_commit file) s.world refl i,
      ),
    );
  }

  -- The two pointers alone
  abbrev pub disks : Store → Option Bytes × Option Bytes
  disks s = (s.world.disk (selected_commit file), s.world.disk (previous_commit file))

  disks_of_pointers : {A : Type 0} (m : Run Store A) → Keeps pointers m → Keeps disks m
  disks_of_pointers m h = record { keep = λ s. ap (λ p. p.1) (h.keep s) }

  flush_marker-Keeps : Keeps pointers (flush_marker aead env file)
  unfolding flush_marker
  flush_marker-Keeps = Keeps-bind pointers _ _ (hit-Keeps after_pointer_replace) (λ _.
      Keeps-bind pointers _ _ (hit-Keeps before_directory_flush)
        (λ _. Keeps-bind pointers _ _ marker-Keeps (λ _. hit-Keeps after_directory_flush)))

  pub finish_flush-Keeps : Keeps disks (finish_flush aead env file)
  unfolding finish_flush
  finish_flush-Keeps =
      Keeps-bind disks _ _ (disks_of_pointers _ flush_marker-Keeps)
        (λ _. record { keep = λ s. refl })

  pub finish_flush-staged :
      (s : Store) {e : StorageError}
      → (finish_flush aead env file s).0 ≡ err e
      → (finish_flush aead env file s).1.staged ≡ s.staged
  unfolding finish_flush
  finish_flush-staged s = elim (Result-cases (flush_marker aead env file s).0) [
    | inr (e, failed) ↦ rw failed (λ _. ap (λ p. p.0) (flush_marker-Keeps.keep s))
    | inl (_, done) ↦ rw done (λ h. cc)
  ]

  pub finish_flush-removed :
      (s : Store)
      → (finish_flush aead env file s).0 ≡ ok tt
      → (finish_flush aead env file s).1.staged ≡ remove file s.staged
  unfolding finish_flush
  finish_flush-removed s = elim (Result-cases (flush_marker aead env file s).0) [
    | inr (e, failed) ↦ rw failed (λ h. cc)
    | inl (_, done) ↦ rw done (λ _. ap (λ p. remove file p.0) (flush_marker-Keeps.keep s))
  ]

  pub publish_pointer-ok :
      (generation : ℕ) (sealed : EncryptedRecordV1) (s : Store)
      → (publish_pointer aead env file generation sealed s).0 ≡ ok tt
      → (bytes : Bytes) × (Record.encode sealed ≡ ok bytes)
        × ((publish_pointer aead env file generation sealed s).1.world.disk (selected_commit file)
            ≡ some bytes)
  unfolding publish_pointer
  publish_pointer-ok generation sealed s =
      let t : Store = record s { world = (keep_prior env file s.world).1 } in
      let u : Store = (hit before_pointer_replace t).1 in
      elim (Result-cases (keep_prior env file s.world).0) [
        | inr (e, failed) ↦ rw failed (λ h. cc)
        | inl (_, done) ↦ elim (Result-cases (hit before_pointer_replace t).0) [
          | inr (e, failed) ↦ rw (done, failed) (λ h. cc)
          | inl (_, passed) ↦
              rw (done, passed) (replace_pointer-ok env file generation sealed u.world)
        ]
      ]

  pub publish_pointer-staged :
      (generation : ℕ) (sealed : EncryptedRecordV1) (s : Store)
      → (publish_pointer aead env file generation sealed s).1.staged ≡ s.staged
  unfolding publish_pointer
  publish_pointer-staged generation sealed s =
      let t : Store = record s { world = (keep_prior env file s.world).1 } in
      elim (Result-cases (keep_prior env file s.world).0) [
        | inr (e, failed) ↦ rw failed refl
        | inl (_, done) ↦ elim (Result-cases (hit before_pointer_replace t).0) [
          | inr (e, failed) ↦ rw (done, failed) (hit-staged before_pointer_replace t)
          | inl (_, passed) ↦ rw (done, passed) (hit-staged before_pointer_replace t)
        ]
      ]
