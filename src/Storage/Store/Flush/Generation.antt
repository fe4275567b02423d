-- ===== src/Storage/Store/Flush/Generation.antt =====
-- Writing the records of a generation changes no other file, and nothing that is staged.
use wdlp.Base.{ℕ, List, [], ◌∷◌, suc}
use wdlp.Base.Bytes.{Bytes}
use wdlp.Crypto.Aead.{RecordAad, AeadCipher, NonceTracker}
use wdlp.Storage.Format.{EncryptedRecordV1}
use wdlp.Storage.Store.{
  DurabilityFaultPoint, before_record_write, after_record_flush, before_manifest_write,
  after_manifest_flush, before_commit_write, after_commit_flush, chunk_rec, manifest_rec,
  commit_rec, Environment, Store, outside, system_call,
}
use wdlp.Storage.Store.Keeps.{Keeps, Keeps-bind, Keeps-pure, Keeps-lift}
use wdlp.Storage.Store.Disk.{write_record}
use wdlp.Storage.Store.Flush.{
  hit, seal_record, write_chunk, write_chunks, write_generation, Progress,
}

module _ {X : Type 0} (part : Store → X) (aead : AeadCipher) (env : Environment) (file : Bytes)
    (generation : ℕ) where
  -- A part that no fault point and no drawn nonce changes.
  pub record IsInner : Type 0 where
    pub spent : (point : DurabilityFaultPoint) → Keeps part (hit point)
    pub sealing :
        (file' : Bytes) (aad : RecordAad) (plaintext : Bytes) (seen : NonceTracker)
        → Keeps part (seal_record aead env file' aad plaintext seen)
    pub directory : Keeps part (outside (system_call env))
    pub chunk_write :
        (index : ℕ) (r : EncryptedRecordV1)
        → Keeps part (outside (write_record env (chunk_rec file generation index) r))
    pub manifest_write :
        (r : EncryptedRecordV1)
        → Keeps part (outside (write_record env (manifest_rec file generation) r))
    pub commit_write :
        (r : EncryptedRecordV1)
        → Keeps part (outside (write_record env (commit_rec file generation) r))

  module _ (inner : IsInner) (store_id : Bytes) where
    write_chunk-Keeps :
        (index : ℕ) (bytes : Bytes) (p : Progress)
        → Keeps part (write_chunk aead env store_id file generation index bytes p)
    unfolding write_chunk
    write_chunk-Keeps index bytes p =
        Keeps-bind part _ _ (inner.sealing file _ bytes p.seen)
          (λ (made : EncryptedRecordV1 × NonceTracker).
            Keeps-bind part _ _ (inner.spent before_record_write) (λ _.
              Keeps-bind part _ _ (inner.chunk_write index made.0) (λ _.
                Keeps-bind part _ _ (inner.spent after_record_flush) (λ _. Keeps-pure part _))))

    write_chunks-Keeps :
        (index : ℕ) (rest : List Bytes) (p : Progress)
        → Keeps part (write_chunks aead env store_id file generation index rest p)
    unfolding write_chunks
    write_chunks-Keeps index [] p = Keeps-pure part _
    write_chunks-Keeps index (bytes ∷ rest) p =
        Keeps-bind part _ _ (write_chunk-Keeps index bytes p)
          (λ p'. write_chunks-Keeps (suc index) rest p')

    pub write_generation-Keeps :
        (content : Bytes) → Keeps part (write_generation aead env store_id file generation content)
    unfolding write_generation
    write_generation-Keeps content = Keeps-bind part _ _ inner.directory (λ _.
        Keeps-bind part _ _ (write_chunks-Keeps 0 _ _) (λ (p : Progress).
          Keeps-bind part _ _ (Keeps-lift part _) (λ (manifest_bytes : Bytes).
            Keeps-bind part _ _ (inner.sealing file _ manifest_bytes p.seen)
              (λ (m : EncryptedRecordV1 × NonceTracker).
                Keeps-bind part _ _ (inner.spent before_manifest_write) (λ _.
                  Keeps-bind part _ _ (inner.manifest_write m.0) (λ _.
                    Keeps-bind part _ _ (inner.spent after_manifest_flush) (λ _.
                      Keeps-bind part _ _ (Keeps-lift part _) (λ (commit_bytes : Bytes).
                        Keeps-bind part _ _ (inner.sealing file _ commit_bytes m.1)
                          (λ (c : EncryptedRecordV1 × NonceTracker).
                            Keeps-bind part _ _ (inner.spent before_commit_write) (λ _.
                              Keeps-bind part _ _ (inner.commit_write c.0) (λ _.
                                Keeps-bind part _ _ (inner.spent after_commit_flush)
                                  (λ _. Keeps-pure part _))))))))))))
