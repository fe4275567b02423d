-- ===== src/Agent/Cache/Pointers.antt =====
-- `serialize_pointers` and `deserialize_pointers` of crates/dlp-agent-core/src/config_cache.rs.
pub mod RoundTrip
use wdlp.Base.{ℕ, [], ◌∷◌, ◌++◌, ◌==◌, not, Option, none, some, if◌then◌else◌}
use wdlp.Base.Bytes.{Bytes, codes, bytes_eq, to_be_bytes}
use wdlp.Base.Results.{Result, ok, err}
use wdlp.Base.Reader.{◌>>=◌, ◌>>◌, pure, fail, reject_if, finish}
use wdlp.Base.Wire.{integer_be}
use wdlp.Agent.Cache.{
  CacheError, corrupt_pointer, CachePointers, ByteReader, ByteRead, new, read_fixed_bytes,
  expect_empty,
}

abbrev pub pointer_magic : Bytes
pointer_magic = codes "dlp-ptr1"

abbrev pub pointer_schema_version : ℕ
pointer_schema_version = 1

abbrev pub append_optional_digest : Option Bytes → Bytes
append_optional_digest none = 0 ∷ []
append_optional_digest (some digest) = 1 ∷ digest

-- `unwrap_or(0)`
abbrev pub or_zero : Option ℕ → ℕ
or_zero none = 0
or_zero (some version) = version

-- A digest and, where there is one, its version.
abbrev pub append_version : Option Bytes → Option ℕ → Bytes
append_version none version = []
append_version (some digest) version = to_be_bytes 8 (or_zero version)

unfoldable pub serialize_pointers : CachePointers → ℕ → Bytes
serialize_pointers p generation =
    pointer_magic
    ++ (to_be_bytes 8 pointer_schema_version
        ++ (to_be_bytes 8 generation
            ++ (append_optional_digest p.current_digest
                ++ (append_version p.current_digest p.current_version
                    ++ (append_optional_digest p.lkg_digest
                        ++ append_version p.lkg_digest p.lkg_version)))))

abbrev pub optional_digest : ℕ → ByteRead (Option Bytes)
optional_digest tag =
    if tag == 0
    then pure none
    else if tag == 1
    then (do digest ← read_fixed_bytes 32; pure (some digest))
    else fail corrupt_pointer

unfoldable pub read_optional_digest : ByteRead (Option Bytes)
read_optional_digest = do tag ← integer_be read_fixed_bytes 1; optional_digest tag

-- `read_u64().unwrap_or(0)`: a failed read leaves the reader where it is.
abbrev pub zero_on_error : Result CacheError (ℕ × ByteReader) → ByteReader → ℕ × ByteReader
zero_on_error (ok read) r = read
zero_on_error (err _) r = (0, r)

unfoldable pub read_version : Option Bytes → ByteRead (Option ℕ)
read_version none r = ok (none, r)
read_version (some digest) r =
    let (version, r') = zero_on_error (integer_be read_fixed_bytes 8 r) r in ok (some version, r')

unfoldable pub read_pointers_record : ByteRead CachePointers
unfolding read_optional_digest read_version
read_pointers_record = do
  magic ← read_fixed_bytes 8
  reject_if corrupt_pointer (λ _. not (bytes_eq magic pointer_magic))
  schema_version ← integer_be read_fixed_bytes 8
  reject_if corrupt_pointer (λ _. not (schema_version == pointer_schema_version))
  generation ← integer_be read_fixed_bytes 8
  current_digest ← read_optional_digest
  current_version ← read_version current_digest
  lkg_digest ← read_optional_digest
  lkg_version ← read_version lkg_digest
  expect_empty
  pure (record {
    current_digest = current_digest;
    current_version = current_version;
    lkg_digest = lkg_digest;
    lkg_version = lkg_version;
  })

unfoldable pub deserialize_pointers : Bytes → Result CacheError CachePointers
unfolding read_pointers_record
deserialize_pointers bytes = finish (read_pointers_record (new bytes))
