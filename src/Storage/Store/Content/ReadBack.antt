-- ===== src/Storage/Store/Content/ReadBack.antt =====
-- What `flush_file` of crates/dlp-storage/src/store.rs wrote, `read` returns.
use wdlp.Base.{
  ℕ, ◌≡◌, ◌<◌, ◌^◌, refl, sym, ap, ◌∙◌, none, some, false, length, inl, inr, Bool-cases,
}
use wdlp.Base.Bytes.{Bytes}
use wdlp.Base.Maps.{text_key, get}
use wdlp.Base.Results.{ok}
use wdlp.Crypto.Aead.{AeadCipher}
use wdlp.Storage.Cursor.{bad_text}
use wdlp.Storage.Store.{DiskPath, selected_commit, Environment, Store}
use wdlp.Storage.Store.Content.{read, read_from_pointer}
use wdlp.Storage.Store.Content.ReadPointer.{read_from_pointer-Yields}
use wdlp.Storage.Store.Flush.{flush_file, CommitOutcome}
use wdlp.Storage.Store.Flush.Selected.{flush_file-eq, flush_file-refused}
use wdlp.Storage.Store.Flush.Staged.{flush_file-ok}
use wdlp.Storage.Store.Flush.Written.{flush_content-Ensures}
use wdlp.Storage.Store.Flush.Generated.{GenerationAt}

module _ (aead : AeadCipher) (env : Environment) (calm : (n : ℕ) → env.fault n ≡ none)
    (file : Bytes) (file_good : bad_text file ≡ false) (store_id key : Bytes)
    (store_good : bad_text store_id ≡ false) where
  -- A pointer to a generation is read, on a host whose calls succeed, as the content it was made of.
  pub read_at_pointer :
      (t : Store) (pointer : DiskPath) (generation : ℕ) (content : Bytes)
      → t.store_id ≡ store_id
      → t.key ≡ key
      → generation < 2 ^ 64
      → GenerationAt aead key store_id file generation content pointer t.world.disk
      → (read_from_pointer aead env t.store_id t.key file pointer t.world).0 ≡ ok content
  read_at_pointer t pointer generation content same_id same_key fits (c, pointed, written) =
      rw (same_id, same_key)
        ((read_from_pointer-Yields aead env calm t.world.disk store_id key file generation
            store_good file_good fits content pointer c pointed written).run
          t.world refl).0

module _ (aead : AeadCipher) (env : Environment) (sized : (n : ℕ) → length (env.nonce n) ≡ 12)
    (file : Bytes) (s : Store) {content : Bytes} (staged : get file s.staged ≡ some content) where
  pub flush_file-GenerationAt :
      {outcome : CommitOutcome}
      → (flush_file aead env file s).0 ≡ ok outcome
      → ((flush_file aead env file s).1.store_id ≡ s.store_id)
        × ((flush_file aead env file s).1.key ≡ s.key)
        × GenerationAt aead s.key s.store_id file outcome.generation content
            (selected_commit file)
            (flush_file aead env file s).1.world.disk
  flush_file-GenerationAt works = elim (Bool-cases s.fail_next_write) [
    | inl fails ↦ absurd (cc (works, flush_file-refused aead env file s fails))
    | inr flushes ↦
        let same = flush_file-eq aead env file s flushes staged in
        rw same (
          (flush_content-Ensures aead env s.store_id s.key sized file content).run s
            (refl, refl, tt) (ap (λ x. x.0) (sym same) ∙ works))
  ]

module _ (aead : AeadCipher) (env env' : Environment) (calm : (n : ℕ) → env'.fault n ≡ none)
    (sized : (n : ℕ) → length (env.nonce n) ≡ 12) (file : Bytes) (file_good : bad_text file ≡ false)
    (s : Store) (store_good : bad_text s.store_id ≡ false)
    (generation_fits : s.world.next_generation < 2 ^ 64) {content : Bytes}
    (staged : get file s.staged ≡ some content) where
  -- Where a flush of staged content succeeds, whatever its host did, reading the file from the store
  -- it leaves, on a host whose calls succeed, returns that content: all of its chunks, in order. The
  -- generation counter is below 2^64, nonces have twelve bytes, and the identifiers of store and file
  -- are ones that the decoders accept.
  pub read-flush_file :
      {outcome : CommitOutcome}
      → (flush_file aead env file s).0 ≡ ok outcome
      → (read aead env' file (flush_file aead env file s).1).0 ≡ ok content
  unfolding read
  read-flush_file {outcome} works =
      let (same_id, same_key, selected) =
        flush_file-GenerationAt aead env sized file s staged works in
      read_at_pointer aead env' calm file file_good s.store_id s.key store_good
        (flush_file aead env file s).1 (selected_commit file) outcome.generation content same_id
        same_key (rw (flush_file-ok aead env file s staged works).0 generation_fits) selected
