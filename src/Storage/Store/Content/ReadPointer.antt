-- ===== src/Storage/Store/Content/ReadPointer.antt =====
-- Reading a file from the pointer to a generation that was written (`read_from_pointer` of
-- crates/dlp-storage/src/store.rs).
use wdlp.Base.{
  ℕ, ◌*◌, ◌≡◌, ◌<◌, ◌≤◌, ◌^◌, refl, none, false, ◌||◌, not, List, [], ◌∷◌, ◌++◌, length, ltb, map,
  All, arith, ==_refl, inl, inr, Bool-cases, ◌==◌, length-append, subst,
}
use wdlp.Base.Bytes.{Bytes, bytes_eq, bytes_eq_refl}
use wdlp.Base.Maps.{text_key}
use wdlp.Base.Results.{ok}
use wdlp.Crypto.Aead.{manifest, commit, AeadCipher}
use wdlp.Crypto.Aead.{seen as seen_in}
use wdlp.Storage.Cursor.{bad_text}
use wdlp.Storage.Errors.{Outcome, integrity_failure}
use wdlp.Storage.Format.{EncryptedRecordV1, EncryptedManifestV1, CommitRecordV1, u16_max, u32_max}
use wdlp.Storage.Format.Manifest
use wdlp.Storage.Format.Manifest.{chunk_bytes, fields, prefix, max_count}
use wdlp.Storage.Format.Manifest.RoundTrip.{
  IsStorable, IsU64, manifest_decode-encode, length-chunk_bytes,
}
use wdlp.Storage.Format.Commit
use wdlp.Storage.Format.Commit.RoundTrip.{commit_decode-encode}
use wdlp.Storage.Store.{DiskPath, manifest_rec, commit_rec, Environment}
use wdlp.Storage.Store.Content.{
  read_from_pointer, read_chunks, open_commit, open_manifest, other_commit,
}
use wdlp.Storage.Store.Content.ReadChunks.{
  read_chunks-Yields, insert_nonce-new, seen_before, bytes_eq-false,
}
use wdlp.Storage.Store.Content.Yields.{
  Yields, Yields-bind, Yields-pure, Yields-lift, Yields-refuse_if, Found, Found-Sealed,
}
use wdlp.Storage.Store.Ensures.{Disk}
use wdlp.Storage.Store.Flush.{chunk_size, chunks}
use wdlp.Storage.Store.Flush.Chunks.{joined, Fits, joined-chunks, chunks-Fits}
use wdlp.Storage.Store.Flush.Records.{Stored}
use wdlp.Storage.Store.Flush.Generated.{GenerationOn}

length-joined :
    (cs : List Bytes) → All (Fits chunk_size) cs → length (joined cs) ≤ length cs * chunk_size
length-joined [] h = omega arith
length-joined (c ∷ cs) (short, h) = omega (arith, length-append c (joined cs), length-joined cs h)

lengths_fit : (cs : List Bytes) → All (Fits chunk_size) cs → All IsU64 (map length cs)
lengths_fit [] h = tt
lengths_fit (c ∷ cs) (short, h) = (omega arith, lengths_fit cs h)

length-lengths : (cs : List Bytes) → length (map length cs) ≡ length cs
length-lengths [] = refl
length-lengths (c ∷ cs) = omega (arith, length-lengths cs)

-- A manifest is longer than the lengths that it lists.
encode-long :
    (m : EncryptedManifestV1) {bytes : Bytes}
    → Manifest.encode m ≡ ok bytes
    → length m.chunk_lengths * 8 ≤ length bytes
unfolding Manifest.encode
encode-long m {bytes} h =
    elim (Bool-cases (ltb u16_max (length m.file_id) || ltb u32_max (length m.chunk_lengths))) [
      | inl over ↦ absurd (cc (rw over at h))
      | inr fits ↦
          let same : prefix ++ fields m ≡ bytes = cc (rw fits at h) in
          subst (λ (b : Bytes). length m.chunk_lengths * 8 ≤ length b) same
            (simp (length-append, length-chunk_bytes) (omega arith))
    ]

decode_encoded :
    {A : Type 0} (decode : Bytes → Outcome A) {encoded : Outcome Bytes} {bytes bytes' : Bytes}
    {a : A}
    → encoded ≡ ok bytes
    → encoded ≡ ok bytes'
    → decode bytes' ≡ ok a
    → decode bytes ≡ ok a
decode_encoded decode h h' e = cc

module _ (aead : AeadCipher) (env : Environment) (calm : (n : ℕ) → env.fault n ≡ none) (d : Disk)
    (store_id key file : Bytes) (generation : ℕ) (store_good : bad_text store_id ≡ false)
    (file_good : bad_text file ≡ false) (generation_fits : generation < 2 ^ 64) (content : Bytes)
    (pointer : DiskPath) (selected : EncryptedRecordV1) (pointed : Stored d pointer selected)
    (written : GenerationOn aead key store_id file generation content selected d) where
  manifest_back :
      Found aead env calm d store_id key file generation store_good file_good generation_fits
        (manifest_rec file generation)
        manifest
        0
        written.4.0
        written.0
        written.1
        written.2
  manifest_back =
      Found-Sealed aead env calm d store_id key file generation store_good file_good generation_fits
        (manifest_rec file generation) manifest 0 written.4.0 written.0 written.1 written.2
        (omega arith) written.4.2 written.4.3

  module _ (path : DiskPath) (stored : Stored d path selected) where
    commit_back :
        Found aead env calm d store_id key file generation store_good file_good generation_fits path
          commit 0 written.5.0 written.2 selected written.5.1
    commit_back =
        Found-Sealed aead env calm d store_id key file generation store_good file_good
          generation_fits path commit 0 written.5.0 written.2 selected written.5.1 (omega arith)
          written.5.3 stored

  abbrev committed : CommitRecordV1
  committed = record { generation = generation; file_id = file }

  abbrev listed : EncryptedManifestV1
  listed = record {
    generation = generation;
    file_id = file;
    logical_length = length content;
    chunk_lengths = map length (chunks content);
  }

  commit_opens : open_commit aead env store_id key file selected ≡ ok committed
  commit_opens =
      let (bytes, encoded, decoded) = commit_decode-encode committed generation_fits file_good in
      rw (open_commit, (commit_back pointer pointed).opens)
        (decode_encoded Commit.decode written.5.2 encoded decoded)

  few_chunks : length (map length (chunks content)) ≤ max_count
  few_chunks = omega (arith, encode-long listed written.4.1, manifest_back.bounded)

  listed-IsStorable : IsStorable listed
  listed-IsStorable = record {
    generation_fits = generation_fits;
    length_fits =
        subst (λ (b : Bytes). length b < 2 ^ 64) (joined-chunks content)
          (omega (
            arith,
            few_chunks,
            length-lengths (chunks content),
            length-joined (chunks content) (chunks-Fits content),
          ));
    chunks_fit = lengths_fit (chunks content) (chunks-Fits content);
    file_good = file_good;
    few_chunks = few_chunks;
  }

  manifest_opens : open_manifest aead env store_id key file written.1 ≡ ok listed
  manifest_opens =
      let (bytes, encoded, decoded) = manifest_decode-encode listed listed-IsStorable in
      rw (open_manifest, manifest_back.opens)
        (decode_encoded Manifest.decode written.4.1 encoded decoded)

  -- The commit's nonce is neither the manifest's nor a chunk's.
  commit_nonce :
      (bytes_eq selected.nonce written.1.nonce ≡ false) × (seen_in written.0 selected.nonce ≡ false)
  commit_nonce =
      seen_before written.1.nonce selected.nonce written.0
        (rw manifest_back.remembered at (commit_back pointer pointed).is_new)

  pub read_from_pointer-Yields :
      Yields d (read_from_pointer aead env store_id key file pointer) content
  unfolding read_from_pointer
  read_from_pointer-Yields =
      let first = commit_back pointer pointed in
      let second = commit_back (commit_rec file generation) written.6 in
      let (apart, new) = commit_nonce in
      let content_read : Yields d
          (read_chunks aead env store_id key file generation 0 (map length (chunks content))
            (written.1.nonce ∷ selected.nonce ∷ []) [])
          content =
        rw (joined-chunks content) at (
          read_chunks-Yields aead env calm d store_id key file generation store_good file_good
            generation_fits 0 (chunks content) [] written.0 written.1.nonce selected.nonce []
            (omega (arith, few_chunks, length-lengths (chunks content))) (chunks-Fits content)
            written.3 manifest_back.is_new new) in
      Yields-bind d _ selected first.reads (
        Yields-bind d _ committed (Yields-lift d commit_opens) (
          Yields-bind d _ tt
            (Yields-refuse_if d (not (bytes_eq file file)) integrity_failure
              (rw (bytes_eq_refl file) refl))
            (Yields-bind d _ selected second.reads (
              Yields-bind d _ tt
                (Yields-refuse_if d (not (selected.generation == generation)) integrity_failure
                  (rw (first.generation_same, ==_refl generation) refl))
                (Yields-bind d _ committed (Yields-lift d commit_opens) (
                  Yields-bind d _ tt
                    (Yields-refuse_if d
                      (other_commit aead env store_id key file committed committed)
                      integrity_failure (rw (==_refl generation, bytes_eq_refl file) refl))
                    (Yields-bind d _ written.1 manifest_back.reads (
                      Yields-bind d _ tt
                        (Yields-refuse_if d (not (written.1.generation == generation))
                          integrity_failure
                          (rw (manifest_back.generation_same, ==_refl generation) refl))
                        (Yields-bind d _ listed (Yields-lift d manifest_opens) (
                          Yields-bind d _ tt
                            (Yields-refuse_if d
                              (not (bytes_eq file file) || not (generation == generation))
                              integrity_failure (rw (==_refl generation, bytes_eq_refl file) refl))
                            (Yields-bind d _ (selected.nonce ∷ [])
                              (Yields-lift d (insert_nonce-new [] selected.nonce refl))
                              (Yields-bind d _ (written.1.nonce ∷ selected.nonce ∷ [])
                                (Yields-lift d (
                                  insert_nonce-new (selected.nonce ∷ []) written.1.nonce (
                                    rw (bytes_eq-false selected.nonce written.1.nonce apart) refl)))
                                (Yields-bind d _ content content_read (
                                  Yields-bind d _ tt
                                    (Yields-refuse_if d (not (length content == length content))
                                      integrity_failure (rw (==_refl (length content)) refl))
                                    (Yields-pure d content)))))))))))))))
