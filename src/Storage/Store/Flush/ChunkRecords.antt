-- ===== src/Storage/Store/Flush/ChunkRecords.antt =====
-- The chunks of a generation that the loop of `flush_file` in crates/dlp-storage/src/store.rs leaves
-- on the disk.
use wdlp.Base.{
  ℕ, suc, ◌≡◌, ◌≤◌, refl, sym, ◌∙◌, ap, true, false, Bool, List, [], ◌∷◌, ◌++◌, length, map, arith,
  ==_refl, append-nil, append_assoc,
}
use wdlp.Base.Bytes.{Bytes, bytes_eq_refl}
use wdlp.Crypto.Aead.{chunk, AeadCipher, NonceTracker}
use wdlp.Storage.Format.{EncryptedRecordV1}
use wdlp.Storage.Store.{before_record_write, after_record_flush, DiskPath, chunk_rec, Environment}
use wdlp.Storage.Store.Disk.{same_path}
use wdlp.Storage.Store.Ensures.{Disk, Ensures, Ensures-bind, Ensures-pure, Ensures-weaken}
use wdlp.Storage.Store.Flush.{write_chunk, write_chunks, file_aad, Progress}
use wdlp.Storage.Store.Flush.Records.{Stored, Stored-Fixes, Fixes, Sealed, Ensures-record}

chunk_rec-same :
    (file : Bytes) (generation index : ℕ)
    → same_path (chunk_rec file generation index) (chunk_rec file generation index) ≡ true
unfolding same_path
chunk_rec-same file generation index =
    rw (bytes_eq_refl file, ==_refl generation, ==_refl index) refl

chunk_rec-apart :
    (file : Bytes) (generation index j : ℕ)
    → suc index ≤ j
    → same_path (chunk_rec file generation j) (chunk_rec file generation index) ≡ false
unfolding same_path
chunk_rec-apart file generation index j later = ground (arith, bytes_eq_refl file)

module _ (aead : AeadCipher) (key : Bytes) where
  module _ (store_id file : Bytes) (generation : ℕ) (d : Disk) where
    -- The chunks from an index on are sealed with nonces new in turn, and stored.
    abbrev pub ChunksOn : ℕ → List Bytes → NonceTracker → NonceTracker → Type 0
    ChunksOn index [] seen final = seen ≡ final
    ChunksOn index (c ∷ cs) seen final =
        (r : EncryptedRecordV1) × (seen' : NonceTracker) × Sealed aead key
          (file_aad store_id file generation chunk index (length c)) c seen r seen'
        × Stored d (chunk_rec file generation index) r
        × ChunksOn (suc index) cs seen' final

  pub ChunksOn-Fixes :
      (store_id file : Bytes) (generation index : ℕ) (cs : List Bytes) (seen final : NonceTracker)
      (touched : DiskPath → Bool)
      → ((j : ℕ) → touched (chunk_rec file generation j) ≡ false)
      → Fixes (λ d. ChunksOn store_id file generation d index cs seen final) touched
  ChunksOn-Fixes store_id file generation index [] seen final touched h d d' same same_nonces =
      same_nonces
  ChunksOn-Fixes store_id file generation index (c ∷ cs) seen final touched h d d' same
        (r, seen', sealed, stored, rest) =
      (
        r,
        seen',
        sealed,
        Stored-Fixes (chunk_rec file generation index) r touched (h index) d d' same stored,
        ChunksOn-Fixes store_id file generation (suc index) cs seen' final touched h d d' same rest,
      )

module _ (aead : AeadCipher) (env : Environment) (store_id key : Bytes)
    (sized : (n : ℕ) → length (env.nonce n) ≡ 12) where
  module _ (file : Bytes) (generation : ℕ) where
    -- The conditions that writing chunks from an index on cannot break
    abbrev pub Outlasts : (Disk → Type 0) → ℕ → Type 0
    Outlasts P index = (j : ℕ) → index ≤ j → Fixes P (same_path (chunk_rec file generation j))

    write_chunk-Ensures :
        {P : Disk → Type 0} (index : ℕ) (c : Bytes) (p : Progress)
        → Outlasts P index
        → Ensures store_id key P (write_chunk aead env store_id file generation index c p) (λ p' d.
          ((r : EncryptedRecordV1) × Sealed aead key
              (file_aad store_id file generation chunk index (length c))
              c
              p.seen
              r
              p'.seen
            × Stored d (chunk_rec file generation index) r)
          × (p'.lengths ≡ p.lengths ++ (length c ∷ []))
          × P d)
    unfolding write_chunk
    write_chunk-Ensures {P} index c p outlasts =
        Ensures-record aead env store_id key sized file before_record_write after_record_flush
          (chunk_rec file generation index) c
          (file_aad store_id file generation chunk index (length c)) p.seen
          (λ made d.
            Sealed aead key (file_aad store_id file generation chunk index (length c)) c p.seen
              made.0 made.1
            × (Stored d (chunk_rec file generation index) made.0 × P d))
          (chunk_rec-same file generation index) (outlasts index (omega arith))
          (λ made d sealed stored holds. (sealed, (stored, holds)))
          (λ made.
            Ensures-pure store_id key _
              (λ d (sealed, (stored, holds)). ((made.0, sealed, stored), refl, holds)))

    pub write_chunks-Ensures :
        (index : ℕ) (cs : List Bytes) (P : Disk → Type 0) (p : Progress)
        → Outlasts P index
        → Ensures store_id key P
            (write_chunks aead env store_id file generation index cs p)
            (λ p' d.
              ChunksOn aead key store_id file generation d index cs p.seen p'.seen
              × (p'.lengths ≡ p.lengths ++ map length cs)
              × P d)
    unfolding write_chunks
    write_chunks-Ensures index [] P p outlasts =
        Ensures-pure store_id key p (λ d holds. (refl, sym (append-nil p.lengths), holds))
    write_chunks-Ensures index (c ∷ cs) P p outlasts =
        Ensures-bind store_id key _ (write_chunk-Ensures index c p outlasts) (λ p'.
          Ensures-weaken store_id key _ (write_chunks-Ensures (suc index) cs _ p' (later p'))
            (λ p'' d (rest, lengths, ((r, sealed, stored), length', holds)). (
              (r, p'.seen, sealed, stored, rest),
              lengths
                  ∙ (ap (λ ns. ns ++ map length cs) length'
                      ∙ append_assoc p.lengths (length c ∷ []) (map length cs)),
              holds,
            )))
      where
        later :
            (p' : Progress)
            → Outlasts
                (λ d.
                  ((r : EncryptedRecordV1) × Sealed aead key
                      (file_aad store_id file generation chunk index (length c))
                      c
                      p.seen
                      r
                      p'.seen
                    × Stored d (chunk_rec file generation index) r)
                  × (p'.lengths ≡ p.lengths ++ (length c ∷ []))
                  × P d)
                (suc index)
        later p' j le d d' others ((r, sealed, stored), lengths, holds) = (
          (
            r,
            sealed,
            Stored-Fixes (chunk_rec file generation index) r
                (same_path (chunk_rec file generation j))
                (chunk_rec-apart file generation index j le) d d' others stored,
          ),
          lengths,
          outlasts j (omega arith) d d' others holds,
        )
