-- ===== src/Storage/Store/Flush/Kept.antt =====
-- What a flush of crates/dlp-storage/src/store.rs keeps, whichever of its steps fails: the store's
-- identifier and key, and the files on the disk that belong neither to the generation it writes nor to
-- the pointers.
use wdlp.Base.{ℕ, ◌≡◌, refl, false, Bool, ◌==◌, Option, arith, inl, inr}
use wdlp.Base.Bytes.{Bytes}
use wdlp.Base.Results.{ok, Result-cases}
use wdlp.Crypto.Aead.{AeadCipher, RecordAad, NonceTracker}
use wdlp.Storage.Format.{EncryptedRecordV1}
use wdlp.Storage.Format.Record.Sealing.{seal}
use wdlp.Storage.Store.{
  DurabilityFaultPoint, before_pointer_replace, after_pointer_replace, before_directory_flush,
  after_directory_flush, DiskPath, chunk_rec, manifest_rec, commit_rec, file_marker, Environment,
  Store, Run, World, outside, system_call,
}
use wdlp.Storage.Store.Disk.{same_path, flush_directory_marker}
use wdlp.Storage.Store.Disk.Laws.{write_record-other, flush_directory_marker-other}
use wdlp.Storage.Store.Ensures.{hit-id, hit-key}
use wdlp.Storage.Store.Flush.{
  Progress, hit, seal_record, publish_pointer, flush_marker, finish_flush, fresh_generation,
  flush_content,
}
use wdlp.Storage.Store.Flush.Frames.{hit-world}
use wdlp.Storage.Store.Flush.Generation.{IsInner, write_generation-Keeps}
use wdlp.Storage.Store.Flush.Selected.{generation_written}
use wdlp.Storage.Store.Flush.Untouched.{
  is_published, apart, keep_prior-untouched, replace_pointer-untouched,
}
use wdlp.Storage.Store.Keeps.{Keeps, Keeps-bind, Keeps-pure}

-- The records of a generation, of whichever file
abbrev pub is_of : ℕ → DiskPath → Bool
is_of generation (chunk_rec file g index) = generation == g
is_of generation (manifest_rec file g) = generation == g
is_of generation (commit_rec file g) = generation == g
is_of generation _ = false

module _ (file : Bytes) (generation : ℕ) where
  chunk_rec-other :
      (index : ℕ) (path : DiskPath)
      → is_of generation path ≡ false
      → same_path (chunk_rec file generation index) path ≡ false
  unfolding same_path
  chunk_rec-other index (chunk_rec f g i) h = ground arith
  chunk_rec-other index _ h = refl

  manifest_rec-other :
      (path : DiskPath)
      → is_of generation path ≡ false
      → same_path (manifest_rec file generation) path ≡ false
  unfolding same_path
  manifest_rec-other (manifest_rec f g) h = ground arith
  manifest_rec-other _ h = refl

  commit_rec-other :
      (path : DiskPath)
      → is_of generation path ≡ false
      → same_path (commit_rec file generation) path ≡ false
  unfolding same_path
  commit_rec-other (commit_rec f g) h = ground arith
  commit_rec-other _ h = refl

module _ (aead : AeadCipher) (env : Environment) (path : DiskPath) where
  -- The identifier, the key and one file on the disk
  abbrev pub owner_and_file : Store → Bytes × (Bytes × Option Bytes)
  owner_and_file s = (s.store_id, (s.key, s.world.disk path))

  hit-Keeps : (point : DurabilityFaultPoint) → Keeps owner_and_file (hit point)
  hit-Keeps point = record {
    keep = λ s i. (hit-id point s i, (hit-key point s i, (hit-world point s i).disk path));
  }

  outside-Keeps :
      {A : Type 0} (m : Run World A)
      → ((w : World) → (m w).1.disk path ≡ w.disk path)
      → Keeps owner_and_file (outside m)
  outside-Keeps m h = record { keep = λ s i. (s.store_id, (s.key, h s.world i)) }

  seal_record-Keeps :
      (file : Bytes) (aad : RecordAad) (plaintext : Bytes) (seen : NonceTracker)
      → Keeps owner_and_file (seal_record aead env file aad plaintext seen)
  unfolding seal_record
  seal_record-Keeps file aad plaintext seen = record {
    keep = λ s. elim (Result-cases (seal aead s.key (env.nonce s.world.calls) aad plaintext seen)) [
      | inl (made, sealed) ↦ rw sealed refl
      | inr (e, failed) ↦ rw failed refl
    ];
  }

  module _ (file : Bytes) (generation : ℕ) (old : is_of generation path ≡ false) where
    owner_and_file-IsInner : IsInner owner_and_file aead env file generation
    unfolding system_call
    owner_and_file-IsInner = record {
      spent = hit-Keeps;
      sealing = seal_record-Keeps;
      directory = record { keep = λ s. refl };
      chunk_write = λ n r. outside-Keeps _ (λ w.
          write_record-other env (chunk_rec file generation n) path r w
            (chunk_rec-other file generation n path old));
      manifest_write = λ r. outside-Keeps _ (λ w.
          write_record-other env (manifest_rec file generation) path r w
            (manifest_rec-other file generation path old));
      commit_write = λ r. outside-Keeps _ (λ w.
          write_record-other env (commit_rec file generation) path r w
            (commit_rec-other file generation path old));
    }

  module _ (file : Bytes) (generation : ℕ) (free : is_published file generation path ≡ false) where
    publish_pointer-Keeps :
        (r : EncryptedRecordV1) → Keeps owner_and_file (publish_pointer aead env file generation r)
    unfolding publish_pointer
    publish_pointer-Keeps r =
        Keeps-bind owner_and_file _ _
          (outside-Keeps _ (keep_prior-untouched env file generation path free))
          (λ _.
            Keeps-bind owner_and_file _ _ (hit-Keeps before_pointer_replace)
              (λ _. outside-Keeps _ (replace_pointer-untouched env file generation path free r)))

    marker-Keeps : Keeps owner_and_file (outside (flush_directory_marker env (file_marker file)))
    marker-Keeps = outside-Keeps _ (λ w.
        flush_directory_marker-other env (file_marker file) path w
          (apart env file generation path free).1)

    finish_flush-Keeps : Keeps owner_and_file (finish_flush aead env file)
    unfolding finish_flush flush_marker
    finish_flush-Keeps =
        Keeps-bind owner_and_file _ _
          (Keeps-bind owner_and_file _ _ (hit-Keeps after_pointer_replace) (λ _.
            Keeps-bind owner_and_file _ _ (hit-Keeps before_directory_flush) (λ _.
              Keeps-bind owner_and_file _ _ marker-Keeps (λ _. hit-Keeps after_directory_flush))))
          (λ _. record { keep = λ s. refl })

  -- A flush keeps a file that is neither of its generation nor published.
  pub flush_content-kept :
      (file content : Bytes) (s : Store)
      → is_of s.world.next_generation path ≡ false
      → is_published file s.world.next_generation path ≡ false
      → owner_and_file (flush_content aead env s.store_id file content s).1 ≡ owner_and_file s
  unfolding flush_content fresh_generation
  flush_content-kept file content s old free =
      let generation : ℕ = s.world.next_generation in
      (Keeps-bind owner_and_file _ _
          (write_generation-Keeps owner_and_file aead env file generation
            (owner_and_file-IsInner file generation old) s.store_id content)
          (λ made.
            Keeps-bind owner_and_file _ _ (publish_pointer-Keeps file generation free made.0) (λ _.
              Keeps-bind owner_and_file _ _ (finish_flush-Keeps file generation free)
                (λ _. Keeps-pure owner_and_file _)))).keep
        (fresh_generation s).1

  -- What follows the writing of the generation keeps a file that is not published.
  pub flush_content-after :
      (file content : Bytes) (s : Store) {made : EncryptedRecordV1 × (Bytes × Progress)}
      → (generation_written aead env file content s).0 ≡ ok made
      → is_published file s.world.next_generation path ≡ false
      → owner_and_file (flush_content aead env s.store_id file content s).1
        ≡ owner_and_file (generation_written aead env file content s).1
  unfolding flush_content fresh_generation
  flush_content-after file content s {made} wrote free =
      let generation : ℕ = s.world.next_generation in
      rw wrote (
        (Keeps-bind owner_and_file _ _ (publish_pointer-Keeps file generation free made.0) (λ _.
            Keeps-bind owner_and_file _ _ (finish_flush-Keeps file generation free)
              (λ _. Keeps-pure owner_and_file _))).keep
          (generation_written aead env file content s).1)
