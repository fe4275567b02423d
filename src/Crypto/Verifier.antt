-- ===== src/Crypto/Verifier.antt =====
-- crates/dlp-crypto/src/lib.rs: `ConfigurationVerifier`. Ed25519 is the parameter `Ed25519`; a key is
-- its bytes.
use wdlp.Base.{
  ℕ, ◌≡◌, Bool, true, false, not, ◌||◌, length, ltb, ◌==◌, is_empty, if◌then◌else◌, Option, none,
  some,
}
use wdlp.Base.Bytes.{Bytes, bytes_eq}
use wdlp.Base.Results.{Result, ok, err}
use wdlp.Crypto.Aead.{
  CryptoError, invalid_key_id, invalid_public_key, invalid_signature_length, key_id_mismatch,
  unsupported_schema, weak_key, signature_invalid,
}

-- `VerifyingKey::from_bytes`, `is_weak`, `verify_strict`, and signing by a seed: what a key signs, its
-- verifying key accepts.
pub record Ed25519 : Type 0 where
  pub from_bytes : Bytes → Option Bytes
  pub is_weak : Bytes → Bool
  pub verify_strict : Bytes → Bytes → Bytes → Bool
  pub verifying_key : Bytes → Bytes
  pub sign : Bytes → Bytes → Bytes
  pub length-sign : (seed message : Bytes) → length (sign seed message) ≡ 64
  pub verify_strict-sign :
      (seed message : Bytes)
      → is_weak (verifying_key seed) ≡ false
      → verify_strict (verifying_key seed) message (sign seed message) ≡ true

abbrev pub ed25519_signature_length : ℕ
ed25519_signature_length = 64

pub record ConfigurationVerifier : Type 0 where
  pub key_id : Bytes
  pub verifying_key : Bytes

module _ (ed25519 : Ed25519) where
  abbrev pub refuse_weak : Bytes → Option Bytes → Result CryptoError ConfigurationVerifier
  refuse_weak key_id none = err invalid_public_key
  refuse_weak key_id (some key) =
      if ed25519.is_weak key
      then err weak_key
      else ok (record { key_id = key_id; verifying_key = key })

  unfoldable pub from_public_key_bytes : Bytes → Bytes → Result CryptoError ConfigurationVerifier
  from_public_key_bytes key_id bytes =
      if is_empty key_id || ltb 128 (length key_id)
      then err invalid_key_id
      else refuse_weak key_id (ed25519.from_bytes bytes)

  unfoldable pub verify :
      ConfigurationVerifier → ℕ → Bytes → Bytes → Bytes → Result CryptoError (Unit {0})
  verify v schema_version key_id canonical_bytes signature =
      if not (schema_version == 1)
      then err (unsupported_schema schema_version)
      else if not (bytes_eq key_id v.key_id)
      then err key_id_mismatch
      else if not (length signature == ed25519_signature_length)
      then err invalid_signature_length
      else if ed25519.verify_strict v.verifying_key canonical_bytes signature
      then ok tt
      else err signature_invalid
