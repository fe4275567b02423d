-- ===== src/Storage/Store/Flush/Written.antt =====
-- The generation that a flush of crates/dlp-storage/src/store.rs which succeeds leaves on the disk,
-- and the pointer to it.
use wdlp.Base.{ℕ, ◌≡◌, refl, length}
use wdlp.Base.Bytes.{Bytes}
use wdlp.Crypto.Aead.{AeadCipher}
use wdlp.Storage.Format.{EncryptedRecordV1}
use wdlp.Storage.Store.{
  before_pointer_replace, after_pointer_replace, before_directory_flush, after_directory_flush,
  selected_commit, file_marker, Environment,
}
use wdlp.Storage.Store.Disk.{same_path, flush_directory_marker}
use wdlp.Storage.Store.Ensures.{
  Disk, Ensures, Ensures-bind, Ensures-pure, Ensures-hit, Ensures-outside,
}
use wdlp.Storage.Store.Flush.{
  publish_pointer, flush_marker, finish_flush, keep_prior, replace_pointer, fresh_generation,
  flush_content,
}
use wdlp.Storage.Store.Flush.Pointer.{replace_pointer-ok}
use wdlp.Storage.Store.Flush.Untouched.{
  is_published, keep_prior-untouched, replace_pointer-untouched,
}
use wdlp.Storage.Store.Disk.Laws.{flush_directory_marker-other}
use wdlp.Storage.Store.Flush.Generated.{
  GenerationOn, GenerationAt, GenerationOn-Fixes, write_generation-Ensures,
}
use wdlp.Storage.Store.Flush.Records.{Stored, Stored-Fixes, Fixes}

module _ (aead : AeadCipher) (env : Environment) (store_id key : Bytes)
    (sized : (n : ℕ) → length (env.nonce n) ≡ 12) (file : Bytes) (generation : ℕ)
    (content : Bytes) where
  publish_pointer-Ensures :
      (c : EncryptedRecordV1)
      → Ensures store_id key
          (GenerationOn aead key store_id file generation content c)
          (publish_pointer aead env file generation c)
          (λ _ d.
            Stored d (selected_commit file) c
            × GenerationOn aead key store_id file generation content c d)
  unfolding publish_pointer same_path
  publish_pointer-Ensures c =
      let stays : Fixes (GenerationOn aead key store_id file generation content c)
          (is_published file generation) =
        GenerationOn-Fixes aead key store_id file generation content c
          (is_published file generation) (λ j. refl) refl refl in
      Ensures-bind store_id key _
        (Ensures-outside store_id key _ (λ w a holds works.
          stays w.disk (keep_prior env file w).1.disk
            (λ path free. keep_prior-untouched env file generation path free w) holds))
        (λ _. Ensures-bind store_id key _ (Ensures-hit store_id key before_pointer_replace) (λ _.
          Ensures-outside store_id key _ (λ w a holds works. (
            replace_pointer-ok env file generation c w works,
            stays w.disk (replace_pointer env file generation c w).1.disk
                (λ path free. replace_pointer-untouched env file generation path free c w) holds,
          ))))

  module _ {P : Disk → Type 0} (stays : Fixes P (same_path (file_marker file))) where
    flush_marker-Ensures : Ensures store_id key P (flush_marker aead env file) (λ _. P)
    unfolding flush_marker
    flush_marker-Ensures =
        Ensures-bind store_id key _ (Ensures-hit store_id key after_pointer_replace) (λ _.
          Ensures-bind store_id key _ (Ensures-hit store_id key before_directory_flush) (λ _.
            Ensures-bind store_id key (λ _. P)
              (Ensures-outside store_id key (flush_directory_marker env (file_marker file))
                (λ w a holds works.
                  stays w.disk (flush_directory_marker env (file_marker file) w).1.disk
                    (λ path h. flush_directory_marker-other env (file_marker file) path w h) holds))
              (λ _. Ensures-hit store_id key after_directory_flush)))

    finish_flush-Ensures : Ensures store_id key P (finish_flush aead env file) (λ _. P)
    unfolding finish_flush
    finish_flush-Ensures =
        Ensures-bind store_id key _ flush_marker-Ensures
          (λ _. record { run = λ s holds works. holds })

module _ (aead : AeadCipher) (env : Environment) (store_id key : Bytes)
    (sized : (n : ℕ) → length (env.nonce n) ≡ 12) (file : Bytes) where
  marker_apart :
      (generation : ℕ) (content : Bytes) (c : EncryptedRecordV1)
      → Fixes
          (λ d.
            Stored d (selected_commit file) c
            × GenerationOn aead key store_id file generation content c d)
          (same_path (file_marker file))
  unfolding same_path
  marker_apart generation content c d d' same (selected, holds) = (
    Stored-Fixes (selected_commit file) c (same_path (file_marker file)) refl d d' same selected,
    GenerationOn-Fixes aead key store_id file generation content c (same_path (file_marker file))
        (λ j. refl) refl refl d d' same holds,
  )

  fresh_generation-Ensures : Ensures store_id key (λ _. Unit {0}) fresh_generation (λ _ _. Unit {0})
  unfolding fresh_generation
  fresh_generation-Ensures = record { run = λ s holds works. holds }

  -- Flushing a content that succeeds leaves its generation on the disk, selected.
  pub flush_content-Ensures :
      (content : Bytes)
      → Ensures store_id key
          (λ _. Unit {0})
          (flush_content aead env store_id file content)
          (λ outcome.
            GenerationAt aead key store_id file outcome.generation content (selected_commit file))
  unfolding flush_content
  flush_content-Ensures content =
      Ensures-bind store_id key _ fresh_generation-Ensures (λ generation.
        Ensures-bind store_id key _
          (write_generation-Ensures aead env store_id key sized file generation content)
          (λ made.
            Ensures-bind store_id key _
              (publish_pointer-Ensures aead env store_id key sized file generation content made.0)
              (λ _.
                Ensures-bind store_id key _
                  (finish_flush-Ensures aead env store_id key sized file generation content
                    (marker_apart generation content made.0))
                  (λ _. Ensures-pure store_id key _ (λ d holds. (made.0, holds.0, holds.1))))))
