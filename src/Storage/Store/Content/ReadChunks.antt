-- ===== src/Storage/Store/Content/ReadChunks.antt =====
-- Reading the chunks of a generation (`read_from_pointer` of crates/dlp-storage/src/store.rs): their
-- nonces are new in turn, although the manifest's and the commit's are met before theirs.
use wdlp.Base.{
  ℕ, suc, ◌+◌, ◌≡◌, ◌<◌, ◌^◌, refl, none, false, ◌||◌, not, List, [], ◌∷◌, ◌++◌, length, map, All,
  arith, ltb, append-nil, append_assoc, ==_refl, inl, inr, Bool-cases, ◌==◌,
}
use wdlp.Base.Bytes.{Bytes, bytes_eq, bytes_eq_sound, bytes_eq_refl}
use wdlp.Base.Results.{ok}
use wdlp.Crypto.Aead.{chunk, AeadCipher, NonceTracker}
use wdlp.Crypto.Aead.{insert as insert_nonce, seen as seen_in}
use wdlp.Storage.Cursor.{bad_text}
use wdlp.Storage.Errors.{integrity_failure}
use wdlp.Storage.Format.Record.Sealing.{or_integrity_failure}
use wdlp.Storage.Store.{chunk_rec, Environment}
use wdlp.Storage.Store.Content.{read_chunks}
use wdlp.Storage.Store.Content.Yields.{
  Yields, Yields-bind, Yields-pure, Yields-lift, Yields-refuse_if, Found-Sealed,
}
use wdlp.Storage.Store.Ensures.{Disk}
use wdlp.Storage.Store.Flush.{chunk_size}
use wdlp.Storage.Store.Flush.Chunks.{joined, Fits}
use wdlp.Storage.Store.Flush.ChunkRecords.{ChunksOn}

pub bytes_eq-false : (a b : Bytes) → bytes_eq a b ≡ false → bytes_eq b a ≡ false
bytes_eq-false a b h = elim (Bool-cases (bytes_eq b a)) [
  | inr differ ↦ differ
  | inl same ↦ absurd (cc (h, bytes_eq_refl a, bytes_eq_sound b a same))
]

seen-append :
    (xs : NonceTracker) (m c x : Bytes)
    → seen_in xs x ≡ false
    → bytes_eq x m ≡ false
    → bytes_eq x c ≡ false
    → seen_in (xs ++ (m ∷ c ∷ [])) x ≡ false
seen-append [] m c x h k l = rw (k, l) refl
seen-append (y ∷ xs) m c x h k l = elim (Bool-cases (bytes_eq x y)) [
  | inl same ↦ absurd (cc (h, same))
  | inr differ ↦ rw differ (seen-append xs m c x (rw differ at h) k l)
]

pub insert_nonce-new :
    (tracker : NonceTracker) (n : Bytes)
    → seen_in tracker n ≡ false
    → or_integrity_failure (insert_nonce tracker n) ≡ ok (n ∷ tracker)
unfolding insert_nonce
insert_nonce-new tracker n h = rw h refl

pub seen_before :
    (n x : Bytes) (tracker : NonceTracker)
    → seen_in (n ∷ tracker) x ≡ false
    → (bytes_eq x n ≡ false) × (seen_in tracker x ≡ false)
seen_before n x tracker h = elim (Bool-cases (bytes_eq x n)) [
  | inl same ↦ absurd (cc (h, same))
  | inr differ ↦ (differ, rw differ at h)
]

module _ (aead : AeadCipher) (env : Environment) (calm : (n : ℕ) → env.fault n ≡ none) (d : Disk)
    (store_id key file : Bytes) (generation : ℕ) (store_good : bad_text store_id ≡ false)
    (file_good : bad_text file ≡ false) (generation_fits : generation < 2 ^ 64) where
  -- A nonce that is new after the chunks was new before them.
  new_before :
      (index : ℕ) (cs : List Bytes) (seen final : NonceTracker) (x : Bytes)
      → index + length cs < 2 ^ 64
      → ChunksOn aead key store_id file generation d index cs seen final
      → seen_in final x ≡ false
      → seen_in seen x ≡ false
  new_before index [] seen final x few same h = rw same h
  new_before index (c ∷ cs) seen final x few (r, seen', sealed, stored, rest) h =
      let found =
        Found-Sealed aead env calm d store_id key file generation store_good file_good
          generation_fits (chunk_rec file generation index) chunk index c seen r seen' (omega arith)
          sealed stored in
      (seen_before r.nonce x seen
        (rw found.remembered at (new_before (suc index) cs seen' final x (omega arith) rest h))).1

  pub read_chunks-Yields :
      (index : ℕ) (cs : List Bytes) (seen final : NonceTracker) (m c : Bytes) (out : Bytes)
      → index + length cs < 2 ^ 64
      → All (Fits chunk_size) cs
      → ChunksOn aead key store_id file generation d index cs seen final
      → seen_in final m ≡ false
      → seen_in final c ≡ false
      → Yields d
          (read_chunks aead env store_id key file generation index
            (map length cs)
            (seen ++ (m ∷ c ∷ []))
            out)
          (out ++ joined cs)
  unfolding read_chunks
  read_chunks-Yields index [] seen final m c out few fit same hm hc =
      rw (append-nil out) (Yields-pure d out)
  read_chunks-Yields index (b ∷ cs) seen final m c out few (short, fit)
        (r, seen', sealed, stored, rest) hm hc =
      let found =
        Found-Sealed aead env calm d store_id key file generation store_good file_good
          generation_fits (chunk_rec file generation index) chunk index b seen r seen' (omega arith)
          sealed stored in
      let apart : (x : Bytes) → seen_in final x ≡ false → bytes_eq r.nonce x ≡ false = λ x h.
        bytes_eq-false x r.nonce
          (seen_before r.nonce x seen (
            rw found.remembered at
              (new_before (suc index) cs seen' final x (omega arith) rest h))).0 in
      let new = seen-append seen m c r.nonce found.is_new (apart m hm) (apart c hc) in
      let later =
        read_chunks-Yields (suc index) cs seen' final m c (out ++ b) (omega arith) fit rest hm hc in
      Yields-bind d _ tt
        (Yields-refuse_if d (ltb chunk_size (length b)) integrity_failure (ground arith))
        (Yields-bind d _ r found.reads (
          Yields-bind d _ tt
            (Yields-refuse_if d
              (not (r.generation == generation) || not (r.plaintext_length == length b))
              integrity_failure
              (rw (found.generation_same, found.length_same, ==_refl generation, ==_refl (length b))
                refl))
            (Yields-bind d _ (r.nonce ∷ (seen ++ (m ∷ c ∷ [])))
              (Yields-lift d (insert_nonce-new (seen ++ (m ∷ c ∷ [])) r.nonce new))
              (Yields-bind d _ b (Yields-lift d found.opens)
                (rw (append_assoc out b (joined cs), found.remembered) at later)))))
