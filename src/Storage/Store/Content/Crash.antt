-- ===== src/Storage/Store/Content/Crash.antt =====
-- What can be read after a flush of crates/dlp-storage/src/store.rs that was stopped anywhere.
use wdlp.Base.{
  ℕ, ◌≡◌, ◌<◌, ◌^◌, refl, sym, ap, ◌∙◌, subst, none, some, Bool, false, ◌||◌, length, ◌⊎◌, inl, inr,
  arith, Bool-cases, ◌==◌,
}
use wdlp.Base.Bytes.{Bytes}
use wdlp.Base.Maps.{text_key, get}
use wdlp.Base.Results.{ok}
use wdlp.Crypto.Aead.{AeadCipher}
use wdlp.Storage.Cursor.{bad_text}
use wdlp.Storage.Errors.{Outcome}
use wdlp.Storage.Format.{EncryptedRecordV1}
use wdlp.Storage.Store.{
  DiskPath, selected_commit, previous_commit, namespace_rec, Environment, Store,
}
use wdlp.Storage.Store.Content.{read_from_pointer}
use wdlp.Storage.Store.Content.ReadBack.{read_at_pointer}
use wdlp.Storage.Store.Disk.{same_path}
use wdlp.Storage.Store.Flush.{flush_content, flush_file, CommitOutcome, Progress, fresh_generation}
use wdlp.Storage.Store.Flush.Generated.{
  GenerationOn, GenerationAt, GenerationOn-Fixes, write_generation-Ensures,
}
use wdlp.Storage.Store.Flush.Kept.{is_of, flush_content-kept, flush_content-after}
use wdlp.Storage.Store.Flush.Selected.{
  flush_content-Flushed, flush_file-eq, flush_file-refused, generation_written,
}
use wdlp.Storage.Store.Flush.Untouched.{is_published, or-false}

module _ (aead : AeadCipher) (env env' : Environment) (calm : (n : ℕ) → env'.fault n ≡ none)
    (sized : (n : ℕ) → length (env.nonce n) ≡ 12) (file : Bytes)
    (file_good : bad_text file ≡ false) where
  -- What reading a pointer of the file returns, on a host whose calls succeed
  abbrev pub Reads : Store → DiskPath → Bytes → Type 0
  Reads t pointer content =
      (read_from_pointer aead env' t.store_id t.key file pointer t.world).0 ≡ ok content

  -- The pointer reads as the old content or the new one, or it is missing and the previous pointer
  -- reads as the old content.
  abbrev pub Recoverable : Bytes → Bytes → Store → Type 0
  Recoverable old new t =
      Reads t (selected_commit file) old
      ⊎ (((t.world.disk (selected_commit file) ≡ none) × Reads t (previous_commit file) old)
          ⊎ Reads t (selected_commit file) new)

  module _ (s : Store) (store_good : bad_text s.store_id ≡ false)
      (generation_fits : s.world.next_generation < 2 ^ 64) (generation : ℕ)
      (older : generation < s.world.next_generation) (old : Bytes)
      (held : GenerationAt aead s.key s.store_id file generation old
        (selected_commit file)
        s.world.disk) where
    -- A pointer that has the bytes of the selected one, in a store whose disk still has the records,
    -- reads as the old content.
    read_old :
        (t : Store) (pointer : DiskPath)
        → t.store_id ≡ s.store_id
        → t.key ≡ s.key
        → GenerationOn aead s.key s.store_id file generation old held.0 t.world.disk
        → t.world.disk pointer ≡ s.world.disk (selected_commit file)
        → Reads t pointer old
    read_old t pointer same_id same_key on_disk same =
        read_at_pointer aead env' calm file file_good s.store_id s.key store_good t pointer
          generation old same_id same_key (omega arith)
          (held.0, (held.1.0, held.1.1, same ∙ held.1.2), on_disk)

    module _ (content : Bytes) where
      abbrev flushed : Store
      flushed = (flush_content aead env s.store_id file content s).1

      abbrev touched : DiskPath → Bool
      touched path =
          is_of s.world.next_generation path || is_published file s.world.next_generation path

      old_kept : GenerationOn aead s.key s.store_id file generation old held.0 flushed.world.disk
      unfolding same_path
      old_kept =
          let apart : (s.world.next_generation == generation) ≡ false = ground arith in
          GenerationOn-Fixes aead s.key s.store_id file generation old held.0 touched
            (λ j. rw apart refl) (rw apart refl) (rw apart refl) s.world.disk flushed.world.disk
            (λ path free.
              let (outside_it, unpublished) =
                or-false (is_of s.world.next_generation path) _ free in
              ap (λ x. x.1.1)
                (flush_content-kept aead env path file content s outside_it unpublished))
            held.2

      new_kept :
          (made : EncryptedRecordV1 × (Bytes × Progress))
          → (generation_written aead env file content s).0 ≡ ok made
          → GenerationOn aead s.key s.store_id file s.world.next_generation content made.0
              flushed.world.disk
      unfolding same_path fresh_generation
      new_kept made wrote =
          let (_, _, on_disk) =
            (write_generation-Ensures aead env s.store_id s.key sized file s.world.next_generation
                content).run
              (fresh_generation s).1 (refl, refl, tt) wrote in
          GenerationOn-Fixes aead s.key s.store_id file s.world.next_generation content made.0
            (is_published file s.world.next_generation) (λ j. refl) refl refl
            (generation_written aead env file content s).1.world.disk flushed.world.disk
            (λ path free.
              ap (λ x. x.1.1) (flush_content-after aead env path file content s wrote free))
            on_disk

      flush_content-Recoverable : ((n : ℕ) → env.unseen n ≡ false) → Recoverable old content flushed
      unfolding same_path
      flush_content-Recoverable seen =
          let kept = flush_content-kept aead env namespace_rec file content s refl refl in
          let same_id : flushed.store_id ≡ s.store_id = ap (λ x. x.0) kept in
          let same_key : flushed.key ≡ s.key = ap (λ x. x.1.0) kept in
          elim (flush_content-Flushed aead env file content s seen) [
            | inl stays ↦
                inl (read_old flushed (selected_commit file) same_id same_key old_kept stays)
            | inr (inl (gone, copied)) ↦ inr (
                inl
                  (gone, read_old flushed (previous_commit file) same_id same_key old_kept copied))
            | inr (inr (made, wrote, bytes, encoded, there)) ↦ inr (
                inr (
                  read_at_pointer aead env' calm file file_good s.store_id s.key store_good flushed
                    (selected_commit file) s.world.next_generation content same_id same_key
                    generation_fits (made.0, (bytes, encoded, there), new_kept made wrote)))
          ]

    -- Where the file's pointer selects a generation older than the counter's, and `Path::exists` does
    -- not miss a pointer that is there, a flush of new content that is stopped at any step, by a
    -- failing call or at a fault point, leaves the file recoverable: on a host whose calls succeed,
    -- the pointer reads as the old content or as the new one, whole; or it is missing and the
    -- previous pointer reads as the old content. The counter is below 2^64, nonces have twelve bytes,
    -- and the identifiers of store and file are ones that the decoders accept.
    pub flush_file-Recoverable :
        (content : Bytes)
        → ((n : ℕ) → env.unseen n ≡ false)
        → get file s.staged ≡ some content
        → Recoverable old content (flush_file aead env file s).1
    flush_file-Recoverable content seen staged = elim (Bool-cases s.fail_next_write) [
      | inl fails ↦
          subst (λ (x : Outcome CommitOutcome × Store). Recoverable old content x.1)
            (sym (flush_file-refused aead env file s fails))
            (inl (
              read_old (record s { fail_next_write = false }) (selected_commit file) refl refl
                held.2 refl))
      | inr works ↦
          subst (λ (x : Outcome CommitOutcome × Store). Recoverable old content x.1)
            (sym (flush_file-eq aead env file s works staged))
            (flush_content-Recoverable content seen)
    ]
