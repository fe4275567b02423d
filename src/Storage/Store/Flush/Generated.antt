-- ===== src/Storage/Store/Flush/Generated.antt =====
-- The records of a generation that `write_generation` leaves on the disk, where it succeeds (the body
-- of `flush_file` in crates/dlp-storage/src/store.rs).
use wdlp.Base.{ℕ, ◌≡◌, refl, true, false, Bool, [], length, map, ==_refl}
use wdlp.Base.Bytes.{Bytes, bytes_eq_refl}
use wdlp.Base.Results.{ok}
use wdlp.Crypto.Aead.{manifest, commit, AeadCipher, NonceTracker}
use wdlp.Storage.Format.{EncryptedRecordV1}
use wdlp.Storage.Format.Manifest
use wdlp.Storage.Format.Commit
use wdlp.Storage.Store.{
  before_manifest_write, after_manifest_flush, before_commit_write, after_commit_flush, DiskPath,
  chunk_rec, manifest_rec, commit_rec, Environment,
}
use wdlp.Storage.Store.Disk.{same_path}
use wdlp.Storage.Store.Ensures.{
  Disk, Ensures, Ensures-bind, Ensures-pure, Ensures-lift, Ensures-outside,
}
use wdlp.Storage.Store.Flush.{Progress, chunks, file_aad, write_generation}
use wdlp.Storage.Store.Flush.ChunkRecords.{ChunksOn, ChunksOn-Fixes, write_chunks-Ensures}
use wdlp.Storage.Store.Flush.Records.{Stored, Stored-Fixes, Fixes, Sealed, Ensures-record}

module _ (aead : AeadCipher) (key store_id file : Bytes) (generation : ℕ) (content : Bytes) where
  -- The manifest sealed after the chunks, and stored
  abbrev pub ManifestOn : NonceTracker → EncryptedRecordV1 → NonceTracker → Disk → Type 0
  ManifestOn seen r seen' d =
      (bytes : Bytes) × (Manifest.encode (record {
        generation = generation;
        file_id = file;
        logical_length = length content;
        chunk_lengths = map length (chunks content);
      })
        ≡ ok bytes)
      × Sealed aead key (file_aad store_id file generation manifest 0 (length bytes)) bytes seen r
          seen'
      × Stored d (manifest_rec file generation) r

  -- The chunks and the manifest stored
  abbrev pub ListedOn : NonceTracker → EncryptedRecordV1 → NonceTracker → Disk → Type 0
  ListedOn seen m seen' d =
      ChunksOn aead key store_id file generation d 0 (chunks content) [] seen
      × ManifestOn seen m seen' d

  ListedOn-Fixes :
      (seen : NonceTracker) (m : EncryptedRecordV1) (seen' : NonceTracker)
      (touched : DiskPath → Bool)
      → ((j : ℕ) → touched (chunk_rec file generation j) ≡ false)
      → touched (manifest_rec file generation) ≡ false
      → Fixes (ListedOn seen m seen') touched
  ListedOn-Fixes seen m seen' touched h h' d d' same (on_disk, (bytes, encoded, sealed, stored)) = (
    ChunksOn-Fixes aead key store_id file generation 0 (chunks content) [] seen touched h d d' same
        on_disk,
    (
      bytes,
      encoded,
      sealed,
      Stored-Fixes (manifest_rec file generation) m touched h' d d' same stored,
    ),
  )

  -- The commit sealed after the manifest
  abbrev pub CommitSealed : NonceTracker → EncryptedRecordV1 → Type 0
  CommitSealed seen r =
      (bytes : Bytes) × (seen' : NonceTracker) × (Commit.encode
          (record { generation = generation; file_id = file })
        ≡ ok bytes)
      × Sealed aead key (file_aad store_id file generation commit 0 (length bytes)) bytes seen r
          seen'

  -- The records of a generation with this content, of which the commit is the one given
  abbrev pub GenerationOn : EncryptedRecordV1 → Disk → Type 0
  GenerationOn c d =
      (seen : NonceTracker) × (m : EncryptedRecordV1) × (seen' : NonceTracker) × ChunksOn aead key
        store_id file generation d 0 (chunks content) [] seen
      × ManifestOn seen m seen' d
      × CommitSealed seen' c
      × Stored d (commit_rec file generation) c

  -- A pointer holds the commit of a generation with this content.
  abbrev pub GenerationAt : DiskPath → Disk → Type 0
  GenerationAt pointer d = (c : EncryptedRecordV1) × Stored d pointer c × GenerationOn c d

  pub GenerationOn-Fixes :
      (c : EncryptedRecordV1) (touched : DiskPath → Bool)
      → ((j : ℕ) → touched (chunk_rec file generation j) ≡ false)
      → touched (manifest_rec file generation) ≡ false
      → touched (commit_rec file generation) ≡ false
      → Fixes (GenerationOn c) touched
  GenerationOn-Fixes c touched h h' h'' d d' same
        (seen, m, seen', on_disk, listed, committed, last) =
      let stays = ListedOn-Fixes seen m seen' touched h h' d d' same (on_disk, listed) in
      (
        seen,
        m,
        seen',
        stays.0,
        stays.1,
        committed,
        Stored-Fixes (commit_rec file generation) c touched h'' d d' same last,
      )

manifest_rec-same :
    (file : Bytes) (generation : ℕ)
    → same_path (manifest_rec file generation) (manifest_rec file generation) ≡ true
unfolding same_path
manifest_rec-same file generation = rw (bytes_eq_refl file, ==_refl generation) refl

commit_rec-same :
    (file : Bytes) (generation : ℕ)
    → same_path (commit_rec file generation) (commit_rec file generation) ≡ true
unfolding same_path
commit_rec-same file generation = rw (bytes_eq_refl file, ==_refl generation) refl

module _ (aead : AeadCipher) (env : Environment) (store_id key : Bytes)
    (sized : (n : ℕ) → length (env.nonce n) ≡ 12) (file : Bytes) (generation : ℕ)
    (content : Bytes) where
  pub write_generation-Ensures :
      Ensures store_id key
        (λ _. Unit {0})
        (write_generation aead env store_id file generation content)
        (λ made d. GenerationOn aead key store_id file generation content made.0 d)
  unfolding write_generation same_path
  write_generation-Ensures =
      let on_disk = ChunksOn-Fixes aead key store_id file generation 0 (chunks content) [] in
      Ensures-bind store_id key (λ _ _. Unit {0})
        (Ensures-outside store_id key _ (λ w a holds works. tt))
        (λ _.
          Ensures-bind store_id key _
            (write_chunks-Ensures aead env store_id key sized file generation 0 (chunks content)
              (λ _. Unit {0}) _ (λ j le d d' others holds. tt))
            (λ (p : Progress). Ensures-bind store_id key _ (Ensures-lift store_id key _) (λ bytes.
              Ensures-record aead env store_id key sized file before_manifest_write
                after_manifest_flush (manifest_rec file generation) bytes _ p.seen
                (λ m. ListedOn aead key store_id file generation content p.seen m.0 m.1)
                (manifest_rec-same file generation)
                (λ d d' others (encoded, (chunked, lengths, u)). (
                  encoded,
                  (
                    on_disk p.seen (same_path (manifest_rec file generation)) (λ j. refl) d d'
                        others chunked,
                    lengths,
                    u,
                  ),
                ))
                (λ m d sealed stored (encoded, (chunked, lengths, _)).
                  (chunked, (bytes, rw lengths at encoded, sealed, stored)))
                (λ m. Ensures-bind store_id key _ (Ensures-lift store_id key _) (λ bytes'.
                  Ensures-record aead env store_id key sized file before_commit_write
                    after_commit_flush (commit_rec file generation) bytes' _ m.1
                    (λ c. GenerationOn aead key store_id file generation content c.0)
                    (commit_rec-same file generation)
                    (λ d d' others (encoded, listed). (
                      encoded,
                      ListedOn-Fixes aead key store_id file generation content p.seen m.0 m.1
                          (same_path (commit_rec file generation)) (λ j. refl) refl d d' others
                          listed,
                    ))
                    (λ c d sealed stored (encoded, listed). (
                      p.seen,
                      m.0,
                      m.1,
                      listed.0,
                      listed.1,
                      (bytes', c.1, encoded, sealed),
                      stored,
                    ))
                    (λ c. Ensures-pure store_id key _ (λ d holds. holds)))))))
