-- ===== src/Tests/Formats.antt =====
-- Runs of crates/dlp-crypto/src/aead.rs and crates/dlp-storage/src/format.rs.
use wdlp.Base.{◌≡◌, refl, arith, [], ◌∷◌, ◌++◌}
use wdlp.Base.Bytes.{Bytes, codes}
use wdlp.Base.Results.{ok}
use wdlp.Crypto.Aead.{encrypt, insert}
use wdlp.Crypto.Aead.Binding.{InRange, canonical_bytes-injective}
use wdlp.Storage.Format.{EncryptedRecordV1, EncryptedManifestV1}
use wdlp.Storage.Format.Record
use wdlp.Storage.Format.Record.Sealing.{seal, open_record, sealed_record}
use wdlp.Storage.Format.Record.RoundTrip.{IsStorable, record_decode-encode}
use wdlp.Storage.Format.Record.Authenticity.{stored_chunk}
use wdlp.Storage.Format.Manifest
use wdlp.Storage.Format.Manifest.RoundTrip as ManifestTrip
use wdlp.Tests.Values.{tag, tagging, a_nonce, a_chunk}

a_chunk-InRange : InRange a_chunk
a_chunk-InRange = record {
  version_fits = omega arith;
  store_fits = omega arith;
  file_fits = omega arith;
  generation_fits = omega arith;
  index_fits = omega arith;
  length_fits = omega arith;
}

canonical_bytes-injective_example : a_chunk ≡ a_chunk
canonical_bytes-injective_example =
    canonical_bytes-injective a_chunk a_chunk a_chunk-InRange a_chunk-InRange refl

abbrev a_record : Bytes → EncryptedRecordV1
a_record ciphertext = sealed_record a_chunk a_nonce ciphertext

a_record-IsStorable : (ciphertext : Bytes) → IsStorable (a_record ciphertext)
a_record-IsStorable ciphertext = record {
  version_fits = omega arith;
  generation_fits = omega arith;
  index_fits = omega arith;
  length_fits = omega arith;
  nonce_sized = refl;
  store_good = refl;
  file_good = refl;
}

abbrev a_plaintext : Bytes
a_plaintext = codes "abc"

abbrev a_sealed : EncryptedRecordV1
a_sealed = a_record (a_plaintext ++ tag)

record_decode-encode_example :
    (bytes : Bytes) × (Record.encode a_sealed ≡ ok bytes) × (Record.decode bytes ≡ ok a_sealed)
record_decode-encode_example =
    record_decode-encode a_sealed (a_record-IsStorable (a_plaintext ++ tag)) (omega arith)

a_sealing : seal tagging [] a_nonce a_chunk a_plaintext [] ≡ ok (a_sealed, a_nonce ∷ [])
unfolding seal encrypt insert
a_sealing = refl

stored_chunk_example :
    (bytes : Bytes) × (Record.encode a_sealed ≡ ok bytes)
    × (Record.decode bytes ≡ ok a_sealed)
    × (open_record tagging [] a_sealed ≡ ok a_plaintext)
stored_chunk_example =
    stored_chunk tagging [] a_chunk a_plaintext a_nonce [] (a_record-IsStorable []) refl refl
      (omega arith) a_sealing

abbrev a_manifest : EncryptedManifestV1
a_manifest = record {
  generation = 2;
  file_id = codes "file";
  logical_length = 5;
  chunk_lengths = 4 ∷ 1 ∷ [];
}

a_manifest-IsStorable : ManifestTrip.IsStorable a_manifest
a_manifest-IsStorable = record {
  generation_fits = omega arith;
  length_fits = omega arith;
  chunks_fit = (omega arith, (omega arith, tt));
  file_good = refl;
  few_chunks = omega arith;
}

manifest_decode-encode_example :
    (bytes : Bytes) × (Manifest.encode a_manifest ≡ ok bytes)
    × (Manifest.decode bytes ≡ ok a_manifest)
manifest_decode-encode_example =
    ManifestTrip.manifest_decode-encode a_manifest a_manifest-IsStorable
