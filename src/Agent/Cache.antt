-- ===== src/Agent/Cache.antt =====
-- crates/dlp-agent-core/src/config_cache.rs: the cache of the current and the last-known-good signed
-- configuration. `Wire` and `Pointers` are its two file formats, `Hex` the names of staged bundles,
-- and `Activation` the operations on its directory.
pub mod Reading
pub mod Wire
pub mod Pointers
pub mod Hex
pub mod Activation
use wdlp.Base.{
  ℕ, ◌+◌, ◌-◌, ◌*◌, ◌^◌, ◌==◌, ltb, leb, List, [], ◌∷◌, length, take, drop, not, ◌&&◌,
  if◌then◌else◌, Option, none, some,
}
use wdlp.Base.Bytes.{Bytes}
use wdlp.Base.Results.{Result, ok, err, ok_or}
use wdlp.Base.Reader.{Read, reject_if}
use wdlp.Base.Utf8.{between}
use wdlp.Crypto.Aead.{
  CryptoError, invalid_key_id, invalid_public_key, invalid_signature_length, key_id_mismatch,
  unsupported_schema, weak_key, signature_invalid, encryption_failed, integrity_failure,
  duplicate_nonce,
}

pub data CacheError : Type 0 where
  invalid_signature invalid_content_hash unsupported_schema_version wrong_audience : CacheError
  wrong_key_id io_failure corrupt_pointer missing_bundle invalid_wire_format : CacheError
  stale_version : (received active : ℕ) → CacheError

pub record CachePointers : Type 0 where
  pub current_digest : Option Bytes
  pub current_version : Option ℕ
  pub lkg_digest : Option Bytes
  pub lkg_version : Option ℕ

-- `CachePointers::default()`
abbrev pub no_pointers : CachePointers
no_pointers = record {
  current_digest = none;
  current_version = none;
  lkg_digest = none;
  lkg_version = none;
}

abbrev pub map_crypto_error : CryptoError → CacheError
map_crypto_error (unsupported_schema received) = unsupported_schema_version
map_crypto_error key_id_mismatch = wrong_key_id
map_crypto_error signature_invalid = invalid_signature
map_crypto_error invalid_signature_length = invalid_signature
map_crypto_error invalid_public_key = invalid_signature
map_crypto_error weak_key = invalid_signature
map_crypto_error invalid_key_id = wrong_key_id
map_crypto_error encryption_failed = invalid_signature
map_crypto_error integrity_failure = invalid_signature
map_crypto_error duplicate_nonce = invalid_signature

-- `str::parse::<u64>`: an optional plus sign, then decimal digits of a number below 2^64.
abbrev pub parse_digits : ℕ → Bytes → Option ℕ
parse_digits value [] = some value
parse_digits value (b ∷ bs) =
    let next = value * 10 + (b - b'0') in
    let rest = parse_digits next bs in
    if between b'0' b'9' b && ltb next (2 ^ 64) then rest else none

abbrev pub parse_unsigned : Bytes → Option ℕ
parse_unsigned [] = none
parse_unsigned (b ∷ bs) = parse_digits 0 (b ∷ bs)

unfoldable pub parse_u64 : Bytes → Option ℕ
parse_u64 [] = none
parse_u64 (b ∷ bs) = if b == b'+' then parse_unsigned bs else parse_unsigned (b ∷ bs)

abbrev pub parse_bundle_version : Bytes → Result CacheError ℕ
parse_bundle_version version = ok_or (parse_u64 version) invalid_wire_format

-- `ByteReader`
pub record ByteReader : Type 0 where
  pub bytes : Bytes
  pub position : ℕ

abbrev pub new : Bytes → ByteReader
new bytes = record { bytes = bytes; position = 0 }

abbrev pub remaining : ByteReader → ℕ
remaining r = length r.bytes - r.position

abbrev pub ByteRead : Type 0 → Type 0
ByteRead A = Read ByteReader CacheError A

unfoldable pub read_fixed_bytes : ℕ → ByteRead Bytes
read_fixed_bytes count r =
    if ltb (remaining r) count
    then err invalid_wire_format
    else ok (take count (drop r.position r.bytes), record r { position = r.position + count })

abbrev pub expect_empty : ByteRead (Unit {0})
expect_empty = reject_if invalid_wire_format (λ r. not (remaining r == 0))
