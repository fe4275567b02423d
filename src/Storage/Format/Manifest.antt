-- ===== src/Storage/Format/Manifest.antt =====
-- `EncryptedManifestV1` of crates/dlp-storage/src/format.rs.
pub mod RoundTrip
use wdlp.Base.{
  ℕ, zero, suc, ◌+◌, ◌*◌, Bool, not, ◌||◌, List, [], ◌∷◌, ◌++◌, length, drop, ltb, ◌==◌,
  if◌then◌else◌,
}
use wdlp.Base.Bytes.{Bytes, to_le_bytes, starts_with}
use wdlp.Base.Results.{ok, err}
use wdlp.Base.Reader.{◌>>=◌, ◌>>◌, pure, reject_if, finish}
use wdlp.Crypto.Aead.{format_id_v1, sized}
use wdlp.Storage.Errors.{integrity_failure, Outcome}
use wdlp.Storage.Cursor.{CursorRead, new, remaining, integer, sized_text}
use wdlp.Storage.Format.{EncryptedManifestV1, u16_max, u32_max}

abbrev pub prefix : Bytes
prefix = format_id_v1 ++ 0 ∷ []

abbrev pub max_count : ℕ
max_count = 1_000_000

-- `for length in &self.chunk_lengths { .. }`
unfoldable pub chunk_bytes : List ℕ → Bytes
chunk_bytes [] = []
chunk_bytes (n ∷ ns) = to_le_bytes 8 n ++ chunk_bytes ns

abbrev pub fields : EncryptedManifestV1 → Bytes
fields m =
    to_le_bytes 8 m.generation
    ++ (sized m.file_id
        ++ (to_le_bytes 8 m.logical_length
            ++ (to_le_bytes 4 (length m.chunk_lengths) ++ chunk_bytes m.chunk_lengths)))

unfoldable pub encode : EncryptedManifestV1 → Outcome Bytes
unfolding chunk_bytes
encode m =
    if ltb u16_max (length m.file_id) || ltb u32_max (length m.chunk_lengths)
    then err integrity_failure
    else ok (prefix ++ fields m)

-- `for _ in 0..count { chunk_lengths.push(cursor.u64()?); }`
read_chunk_lengths : ℕ → CursorRead (List ℕ)
read_chunk_lengths zero = pure []
read_chunk_lengths (suc count) = do n ← integer 8; ns ← read_chunk_lengths count; pure (n ∷ ns)

-- `saturating_mul` never saturates at a count of four bytes.
read_manifest : CursorRead EncryptedManifestV1
unfolding read_chunk_lengths
read_manifest = do
  generation ← integer 8
  file_id ← sized_text
  logical_length ← integer 8
  count ← integer 4
  reject_if integrity_failure (λ c. ltb max_count count || not (remaining c == count * 8))
  chunk_lengths ← read_chunk_lengths count
  pure (record {
    generation = generation;
    file_id = file_id;
    logical_length = logical_length;
    chunk_lengths = chunk_lengths;
  })

unfoldable pub decode : Bytes → Outcome EncryptedManifestV1
unfolding read_manifest
decode bytes =
    if not (starts_with prefix bytes)
    then err integrity_failure
    else finish (read_manifest (new (drop (length prefix) bytes)))
