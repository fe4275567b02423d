-- ===== src/Storage/Format.antt =====
-- crates/dlp-storage/src/format.rs: the persisted records. Decoding reads a byte slice by a cursor
-- and checks every field before it builds the record.
pub mod Record
pub mod Manifest
pub mod Commit
use wdlp.Base.{ℕ, ◌+◌, ◌*◌, ◌-◌, ◌^◌, List}
use wdlp.Base.Bytes.{Bytes, codes}
use wdlp.Crypto.Aead.{RecordKind}

abbrev pub format_version_v1 : ℕ
format_version_v1 = 1

abbrev pub magic : Bytes
magic = codes "DLP1"

abbrev pub max_ciphertext : ℕ
max_ciphertext = 4 * 1024 * 1024 + 64 * 1024

-- u16::MAX and u32::MAX
abbrev pub u16_max : ℕ
u16_max = 2 ^ 16 - 1

abbrev pub u32_max : ℕ
u32_max = 2 ^ 32 - 1

pub record EncryptedRecordV1 : Type 0 where
  pub format_version : ℕ
  pub store_id : Bytes
  pub file_id : Bytes
  pub generation : ℕ
  pub record_kind : RecordKind
  pub chunk_index : ℕ
  pub plaintext_length : ℕ
  pub nonce : Bytes
  pub ciphertext : Bytes

pub record EncryptedManifestV1 : Type 0 where
  pub generation : ℕ
  pub file_id : Bytes
  pub logical_length : ℕ
  pub chunk_lengths : List ℕ

pub record CommitRecordV1 : Type 0 where
  pub generation : ℕ
  pub file_id : Bytes
