-- ===== src/Storage/Format/Manifest/RoundTrip.antt =====
-- A manifest that is encoded is decoded to itself, up to a million chunks.
use wdlp.Base.{
  ℕ, ◌≡◌, ◌<◌, ◌≤◌, ◌^◌, ◌*◌, refl, false, not, ◌||◌, List, [], ◌∷◌, ap, arith, length,
  length-append, ltb, ◌==◌, All, ◌++◌,
}
use wdlp.Base.Bytes.{Bytes, length-to_le_bytes, starts_with-append}
use wdlp.Base.Results.{ok}
use wdlp.Base.Reader.{
  reject_if, finish, Fits, Parses, Parses-bind, Parses-last, Parses-pure, Ends, Ends-bind,
  Ends-last, Ends-check, Ends-pure,
}
use wdlp.Storage.Errors.{integrity_failure}
use wdlp.Storage.Cursor.{remaining, bad_text}
use wdlp.Storage.Cursor.Laws.{at, integer-Parses, sized_text-Parses, bad_text-length}
use wdlp.Storage.Format.{EncryptedManifestV1}
use wdlp.Storage.Format.Manifest.{
  encode, decode, read_manifest, fields, prefix, chunk_bytes, read_chunk_lengths, max_count,
}

abbrev pub IsU64 : ℕ → Type 0
IsU64 n = n < 2 ^ 64

pub record IsStorable (m : EncryptedManifestV1) : Type 0 where
  pub generation_fits : m.generation < 2 ^ 64
  pub length_fits : m.logical_length < 2 ^ 64
  pub chunks_fit : All IsU64 m.chunk_lengths
  pub file_good : bad_text m.file_id ≡ false
  pub few_chunks : length m.chunk_lengths ≤ max_count

pub length-chunk_bytes : (ns : List ℕ) → length (chunk_bytes ns) ≡ length ns * 8
unfolding chunk_bytes
length-chunk_bytes [] = refl
length-chunk_bytes (n ∷ ns) =
    simp (length-append, length-to_le_bytes) (omega (arith, length-chunk_bytes ns))

read_chunk_lengths-Parses :
    (ns : List ℕ) → All IsU64 ns → Parses at (read_chunk_lengths (length ns)) (chunk_bytes ns) ns
unfolding read_chunk_lengths chunk_bytes
read_chunk_lengths-Parses [] h = Parses-pure []
read_chunk_lengths-Parses (n ∷ ns) (h, hs) =
    Parses-bind _ (integer-Parses 8 n h)
      (Parses-last _ (read_chunk_lengths-Parses ns hs) (Parses-pure (n ∷ ns)))

module _ (m : EncryptedManifestV1) (h : IsStorable m) where
  exact :
      (before : Bytes)
      → reject_if integrity_failure
          (λ c.
            ltb max_count (length m.chunk_lengths)
            || not (remaining c == length m.chunk_lengths * 8))
          (at before (chunk_bytes m.chunk_lengths))
        ≡ ok (tt, at before (chunk_bytes m.chunk_lengths))
  unfolding reject_if
  exact before = ground (
    arith,
    length-append before (chunk_bytes m.chunk_lengths),
    length-chunk_bytes m.chunk_lengths,
    h.few_chunks,
  )

  read_manifest-Ends : Ends at read_manifest (fields m) m
  unfolding read_manifest
  read_manifest-Ends = Ends-bind _ (integer-Parses 8 m.generation h.generation_fits) (
      Ends-bind _ (sized_text-Parses m.file_id h.file_good) (
        Ends-bind _ (integer-Parses 8 m.logical_length h.length_fits) (
          Ends-bind _ (integer-Parses 4 (length m.chunk_lengths) (omega arith)) (
            Ends-check _ _ exact (
              Ends-last _ (read_chunk_lengths-Parses m.chunk_lengths h.chunks_fit)
                (Ends-pure m))))))

  fields-Fits : Fits [] (fields m)
  fields-Fits =
      let a = bad_text-length m.file_id h.file_good in
      simp (length-append, length-to_le_bytes, length-chunk_bytes) (omega arith)

  -- A manifest with integers in range, a well-formed file identifier and at most a million chunks
  -- is encoded, and decoding the bytes returns it.
  pub manifest_decode-encode : (bytes : Bytes) × (encode m ≡ ok bytes) × (decode bytes ≡ ok m)
  unfolding encode decode
  manifest_decode-encode =
      let a = bad_text-length m.file_id h.file_good in
      (
        prefix ++ fields m,
        ground arith,
        rw (starts_with-append prefix (fields m))
            (ap finish (read_manifest-Ends.run [] fields-Fits)),
      )
