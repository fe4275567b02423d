-- ===== src/Storage/Store/Flush/Staged.antt =====
-- What is staged after a flush, and what a flush that succeeds has done.
use wdlp.Base.{◌≡◌, refl, sym, ap, ◌∙◌, inl, inr, some, Bool-cases, Option-cases}
use wdlp.Base.Bytes.{Bytes}
use wdlp.Base.Maps.{text_key, get, remove}
use wdlp.Base.Results.{ok, err, Result-cases}
use wdlp.Crypto.Aead.{AeadCipher}
use wdlp.Storage.Errors.{StorageError, Outcome}
use wdlp.Storage.Format.{EncryptedRecordV1}
use wdlp.Storage.Format.Record
use wdlp.Storage.Store.{selected_commit, Environment, Store}
use wdlp.Storage.Store.Flush.{
  Progress, fresh_generation, publish_pointer, finish_flush, flush_content, flush_file,
  CommitOutcome,
}
use wdlp.Storage.Store.Flush.Generation.{write_generation-Keeps}
use wdlp.Storage.Store.Flush.Frames.{
  pointers, pointers-IsInner, publish_pointer-ok, publish_pointer-staged, finish_flush-Keeps,
  finish_flush-staged, finish_flush-removed,
}
use wdlp.Storage.Store.Flush.Selected.{
  generation_written, flush_file-eq, flush_file-refused, flush_file-unstaged,
}

ok-injective : {a b : CommitOutcome} → Path (Outcome CommitOutcome) (ok a) (ok b) → a ≡ b
ok-injective h = cc

module _ (aead : AeadCipher) (env : Environment) (file : Bytes) where
  module _ (content : Bytes) (s : Store) where
    -- The stores after the generation was written and after the pointer was published.
    abbrev written : Store
    written = (generation_written aead env file content s).1

    abbrev published : EncryptedRecordV1 × (Bytes × Progress) → Store
    published made = (publish_pointer aead env file s.world.next_generation made.0 written).1

    written-staged : written.staged ≡ s.staged
    unfolding fresh_generation
    written-staged =
        ap (λ p. p.0)
          ((write_generation-Keeps (pointers aead env file) aead env file s.world.next_generation
              (pointers-IsInner aead env file s.world.next_generation) s.store_id content).keep
            (fresh_generation s).1)

    published-staged :
        (made : EncryptedRecordV1 × (Bytes × Progress)) → (published made).staged ≡ s.staged
    published-staged made =
        publish_pointer-staged aead env file s.world.next_generation made.0 written ∙ written-staged

    flush_content-err :
        {e : StorageError}
        → (flush_content aead env s.store_id file content s).0 ≡ err e
        → (flush_content aead env s.store_id file content s).1.staged ≡ s.staged
    unfolding flush_content fresh_generation
    flush_content-err = elim (Result-cases (generation_written aead env file content s).0) [
      | inr (e, failed) ↦ rw failed (λ _. written-staged)
      | inl (made, wrote) ↦
          elim (Result-cases
            (publish_pointer aead env file s.world.next_generation made.0 written).0) [
              | inr (e, failed) ↦ rw (wrote, failed) (λ _. published-staged made)
              | inl (_, pointed) ↦
                  elim (Result-cases (finish_flush aead env file (published made)).0) [
                    | inr (e, failed) ↦
                        rw (wrote, pointed, failed)
                          (λ _.
                            finish_flush-staged aead env file (published made) failed
                            ∙ published-staged made)
                    | inl (_, finished) ↦ rw (wrote, pointed, finished) (λ h. cc)
                  ]
            ]
    ]

    flush_content-ok :
        {outcome : CommitOutcome}
        → (flush_content aead env s.store_id file content s).0 ≡ ok outcome
        → (outcome.generation ≡ s.world.next_generation)
          × ((flush_content aead env s.store_id file content s).1.staged ≡ remove file s.staged)
          × (made : EncryptedRecordV1 × (Bytes × Progress)) × ((generation_written aead env file
                content s).0
              ≡ ok made)
          × (bytes : Bytes) × (Record.encode made.0 ≡ ok bytes)
          × ((flush_content aead env s.store_id file content s).1.world.disk (selected_commit file)
              ≡ some bytes)
    unfolding flush_content fresh_generation
    flush_content-ok {outcome} =
        elim (Result-cases (generation_written aead env file content s).0) [
          | inr (e, failed) ↦ rw failed (λ h. cc)
          | inl (made, wrote) ↦
              elim (Result-cases
                (publish_pointer aead env file s.world.next_generation made.0 written).0) [
                  | inr (e, failed) ↦ rw (wrote, failed) (λ h. cc)
                  | inl (_, pointed) ↦
                      elim (Result-cases (finish_flush aead env file (published made)).0) [
                        | inr (e, failed) ↦ rw (wrote, pointed, failed) (λ h. cc)
                        | inl (_, finished) ↦
                            let (bytes, encoded, there) =
                              publish_pointer-ok aead env file s.world.next_generation made.0
                                written pointed in
                            let same = (finish_flush-Keeps aead env file).keep (published made) in
                            rw (wrote, pointed, finished)
                              (λ h. (
                                ap (λ (o : CommitOutcome). o.generation) (ok-injective (sym h)),
                                finish_flush-removed aead env file (published made) finished
                                    ∙ ap (remove file) (published-staged made),
                                made,
                                refl,
                                bytes,
                                encoded,
                                ap (λ p. p.0) same ∙ there,
                              ))
                      ]
                ]
        ]

  -- A flush that fails, for whatever reason, keeps all that is staged.
  pub flush_file-err :
      (s : Store) {e : StorageError}
      → (flush_file aead env file s).0 ≡ err e
      → (flush_file aead env file s).1.staged ≡ s.staged
  flush_file-err s = elim (Bool-cases s.fail_next_write) [
    | inl fails ↦ rw (flush_file-refused aead env file s fails) (λ _. refl)
    | inr works ↦ elim (Option-cases (get file s.staged)) [
      | inl nothing ↦ rw (flush_file-unstaged aead env file s works nothing) (λ _. refl)
      | inr (content, staged) ↦
          rw (flush_file-eq aead env file s works staged) (flush_content-err content s)
    ]
  ]

  pub flush_file-ok :
      (s : Store) {content : Bytes} {outcome : CommitOutcome}
      → get file s.staged ≡ some content
      → (flush_file aead env file s).0 ≡ ok outcome
      → (outcome.generation ≡ s.world.next_generation)
        × ((flush_file aead env file s).1.staged ≡ remove file s.staged)
        × (made : EncryptedRecordV1 × (Bytes × Progress)) × ((generation_written aead env file
              content s).0
            ≡ ok made)
        × (bytes : Bytes) × (Record.encode made.0 ≡ ok bytes)
        × ((flush_file aead env file s).1.world.disk (selected_commit file) ≡ some bytes)
  flush_file-ok s {content} {outcome} staged = elim (Bool-cases s.fail_next_write) [
    | inl fails ↦ rw (flush_file-refused aead env file s fails) (λ h. cc)
    | inr works ↦ rw (flush_file-eq aead env file s works staged) (flush_content-ok content s)
  ]
