-- ===== src/Storage/Store/Flush/Selected.antt =====
-- The pointer that selects a file's content, through a flush that may fail anywhere.
use wdlp.Base.{ℕ, ◌≡◌, refl, sym, ap, ◌∙◌, subst, true, false, ◌⊎◌, inl, inr, some, none}
use wdlp.Base.Bytes.{Bytes}
use wdlp.Base.Maps.{text_key, get}
use wdlp.Base.Results.{ok, err, Result-cases}
use wdlp.Crypto.Aead.{AeadCipher}
use wdlp.Storage.Errors.{Outcome, not_found, io_failure}
use wdlp.Storage.Format.{EncryptedRecordV1}
use wdlp.Storage.Format.Record
use wdlp.Storage.Store.{selected_commit, previous_commit, Environment, World, Store}
use wdlp.Storage.Store.Flush.{
  Progress, fresh_generation, write_generation, publish_pointer, finish_flush, flush_content,
  flush_staged, flush_unless, flush_file,
}
use wdlp.Storage.Store.Flush.Pointer.{Selects, Selects-agree}
use wdlp.Storage.Store.Flush.Generation.{write_generation-Keeps}
use wdlp.Storage.Store.Flush.Frames.{
  pointers, pointers-IsInner, publish_pointer-Selects, finish_flush-Keeps,
}

module _ (aead : AeadCipher) (env : Environment) (file : Bytes) where
  -- The records of the generation that a flush of this content writes, with the commit record that
  -- it ends with, or why it fails.
  abbrev pub generation_written :
      Bytes → Store → Outcome (EncryptedRecordV1 × (Bytes × Progress)) × Store
  generation_written content s =
      write_generation aead env s.store_id file s.world.next_generation content
        (fresh_generation s).1

  -- The pointer selects what it did; or nothing, and what it did is the previous pointer; or the
  -- commit record of the generation written for the content.
  abbrev pub Flushed : Bytes → Store → World → Type 0
  Flushed content s w =
      (w.disk (selected_commit file) ≡ s.world.disk (selected_commit file))
      ⊎ (((w.disk (selected_commit file) ≡ none)
            × (w.disk (previous_commit file) ≡ s.world.disk (selected_commit file)))
          ⊎ ((made : EncryptedRecordV1 × (Bytes × Progress)) × ((generation_written content s).0
                ≡ ok made)
              × (bytes : Bytes) × (Record.encode made.0 ≡ ok bytes)
              × (w.disk (selected_commit file) ≡ some bytes)))

  Selects-Flushed :
      (content : Bytes) (s : Store) (made : EncryptedRecordV1 × (Bytes × Progress)) (w : World)
      → (generation_written content s).0 ≡ ok made
      → Selects env file (s.world.disk (selected_commit file)) made.0 w
      → Flushed content s w
  Selects-Flushed content s made w wrote (inl stays) = inl stays
  Selects-Flushed content s made w wrote (inr (inl kept)) = inr (inl kept)
  Selects-Flushed content s made w wrote (inr (inr (bytes, encoded, there))) =
      inr (inr (made, wrote, bytes, encoded, there))

  pub flush_content-Flushed :
      (content : Bytes) (s : Store)
      → ((n : ℕ) → env.unseen n ≡ false)
      → Flushed content s (flush_content aead env s.store_id file content s).1.world
  unfolding flush_content fresh_generation
  flush_content-Flushed content s seen =
      let s₁ : Store = (fresh_generation s).1 in
      let g : ℕ = s.world.next_generation in
      let t : Store = (generation_written content s).1 in
      let kept : t.world.disk (selected_commit file) ≡ s.world.disk (selected_commit file) =
        ap (λ p. p.1.0)
          ((write_generation-Keeps (pointers aead env file) aead env file g
              (pointers-IsInner aead env file g) s.store_id content).keep
            s₁) in
      elim (Result-cases (generation_written content s).0) [
        | inr (e, failed) ↦ rw failed (inl kept)
        | inl (made, wrote) ↦
            let u : Store = (publish_pointer aead env file g made.0 t).1 in
            let v : Store = (finish_flush aead env file u).1 in
            let selects : Selects env file (s.world.disk (selected_commit file)) made.0 u.world =
              rw kept at (publish_pointer-Selects aead env file g made.0 t seen) in
            let same = (finish_flush-Keeps aead env file).keep u in
            let after : Flushed content s v.world = Selects-Flushed content s made v.world wrote (
              Selects-agree env file (s.world.disk (selected_commit file)) made.0 u.world v.world
                selects (ap (λ p. p.0) same) (ap (λ p. p.1) same)) in
            elim (Result-cases (publish_pointer aead env file g made.0 t).0) [
              | inr (e, failed) ↦
                  let ends : (flush_content aead env s.store_id file content s).1 ≡ u =
                    rw (wrote, failed) refl in
                  subst (λ (x : Store). Flushed content s x.world) (sym ends)
                    (Selects-Flushed content s made u.world wrote selects)
              | inl (_, published) ↦ elim (Result-cases (finish_flush aead env file u).0) [
                | inr (e, failed) ↦
                    let ends : (flush_content aead env s.store_id file content s).1 ≡ v =
                      rw (wrote, published, failed) refl in
                    subst (λ (x : Store). Flushed content s x.world) (sym ends) after
                | inl (_, finished) ↦
                    let ends : (flush_content aead env s.store_id file content s).1 ≡ v =
                      rw (wrote, published, finished) refl in
                    subst (λ (x : Store). Flushed content s x.world) (sym ends) after
              ]
            ]
      ]

  pub flush_file-eq :
      (s : Store) {content : Bytes}
      → s.fail_next_write ≡ false
      → get file s.staged ≡ some content
      → flush_file aead env file s ≡ flush_content aead env s.store_id file content s
  unfolding flush_file
  flush_file-eq s works staged =
      ap (λ b. flush_unless aead env file b s) works
      ∙ ap (λ o. flush_staged aead env file o s) staged

  pub flush_file-unstaged :
      (s : Store)
      → s.fail_next_write ≡ false
      → get file s.staged ≡ none
      → flush_file aead env file s ≡ (err not_found, s)
  unfolding flush_file
  flush_file-unstaged s works nothing =
      ap (λ b. flush_unless aead env file b s) works
      ∙ ap (λ o. flush_staged aead env file o s) nothing

  pub flush_file-refused :
      (s : Store)
      → s.fail_next_write ≡ true
      → flush_file aead env file s ≡ (err io_failure, record s { fail_next_write = false })
  unfolding flush_file
  flush_file-refused s fails = ap (λ b. flush_unless aead env file b s) fails
