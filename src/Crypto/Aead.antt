-- ===== src/Crypto/Aead.antt =====
-- crates/dlp-crypto/src/aead.rs. AES-256-GCM of the crate `aes_gcm` is the parameter `AeadCipher`;
-- the nonce that it draws at random is an argument.
pub mod Binding
use wdlp.Base.{
  ℕ, ◌+◌, ◌%◌, ◌^◌, ◌≡◌, Bool, Option, none, some, List, ◌∷◌, ◌++◌, length, any, if◌then◌else◌,
}
use wdlp.Base.Bytes.{Bytes, codes, bytes_eq, to_le_bytes}
use wdlp.Base.Results.{Result, ok, err}

pub data CryptoError : Type 0 where
  invalid_key_id invalid_public_key invalid_signature_length key_id_mismatch : CryptoError
  unsupported_schema : (received : ℕ) → CryptoError
  weak_key signature_invalid encryption_failed integrity_failure duplicate_nonce : CryptoError

abbrev pub format_id_v1 : Bytes
format_id_v1 = codes "dlp-store/aes256gcm-4m/v1"

abbrev pub nonce_length : ℕ
nonce_length = 12

pub data RecordKind : Type 0 where
  chunk manifest commit : RecordKind

abbrev pub as_byte : RecordKind → ℕ
as_byte chunk = 1
as_byte manifest = 2
as_byte commit = 3

pub record RecordAad : Type 0 where
  pub format_version : ℕ
  pub store_id : Bytes
  pub file_id : Bytes
  pub generation : ℕ
  pub record_kind : RecordKind
  pub chunk_index : ℕ
  pub plaintext_length : ℕ

-- `value.len() as u16` keeps the low sixteen bits of the length.
abbrev pub sized : Bytes → Bytes
sized value = to_le_bytes 2 (length value % 2 ^ 16) ++ value

unfoldable pub canonical_bytes : RecordAad → Bytes
canonical_bytes a =
    format_id_v1
    ++ (to_le_bytes 2 a.format_version
        ++ (sized a.store_id
            ++ (sized a.file_id
                ++ (to_le_bytes 8 a.generation
                    ++ (as_byte a.record_kind
                        ∷ (to_le_bytes 8 a.chunk_index ++ to_le_bytes 8 a.plaintext_length))))))

-- What the record layer uses of the AEAD: sealing is a function of key, nonce, associated data and
-- plaintext that may fail; opening a ciphertext under the same key, nonce and associated data returns
-- the plaintext that was sealed; the ciphertext is as long as the plaintext and a sixteen-byte tag.
pub record AeadCipher : Type 0 where
  pub seal : Bytes → Bytes → Bytes → Bytes → Option Bytes
  pub open_sealed : Bytes → Bytes → Bytes → Bytes → Option Bytes
  pub open_sealed-seal :
      (key nonce aad plain cipher : Bytes)
      → seal key nonce aad plain ≡ some cipher
      → open_sealed key nonce aad cipher ≡ some plain
  pub length-seal :
      (key nonce aad plain cipher : Bytes)
      → seal key nonce aad plain ≡ some cipher
      → length cipher ≡ length plain + 16

module _ (aead : AeadCipher) (key : Bytes) where
  -- `RecordCipher::encrypt`, with the nonce that `Nonce::generate` returned
  unfoldable pub encrypt : Bytes → RecordAad → Bytes → Result CryptoError (Bytes × Bytes)
  encrypt nonce aad plaintext = elim (aead.seal key nonce (canonical_bytes aad) plaintext) [
    | none ↦ err encryption_failed
    | some ciphertext ↦ ok (nonce, ciphertext)
  ]

  -- `RecordCipher::decrypt`
  unfoldable pub decrypt : RecordAad → Bytes → Bytes → Result CryptoError Bytes
  decrypt aad nonce ciphertext =
      elim (aead.open_sealed key nonce (canonical_bytes aad) ciphertext) [
        | none ↦ err integrity_failure
        | some plaintext ↦ ok plaintext
      ]

-- The set of nonces seen; the program only inserts and never iterates.
abbrev pub NonceTracker : Type 0
NonceTracker = List Bytes

abbrev pub seen : NonceTracker → Bytes → Bool
seen tracker nonce = any (bytes_eq nonce) tracker

unfoldable pub insert : NonceTracker → Bytes → Result CryptoError NonceTracker
insert tracker nonce = if seen tracker nonce then err duplicate_nonce else ok (nonce ∷ tracker)
