-- ===== src/Protocol/Envelope.antt =====
-- `ConfigurationEnvelopeV1`, `SignedConfigurationV1` and `CanonicalReader` of
-- crates/dlp-protocol/src/lib.rs. SHA-256 is the parameter `sha256`.
pub mod Decoding
use wdlp.Base.{
  ℕ, Bool, true, false, not, List, [], ◌∷◌, ◌++◌, length, take, drop, ltb, ◌==◌, is_empty,
  if◌then◌else◌, String, Option, some, none,
}
use wdlp.Base.Bytes.{Bytes, codes, bytes_eq, to_be_bytes, starts_with}
use wdlp.Base.Results.{Result, ok, err, refuse}
use wdlp.Base.Reader.{Read, ◌>>=◌, ◌>>◌, pure, reject_if, finish}
use wdlp.Base.Wire.{append_bytes, lift, integer_be, sized_be, text_be}
use wdlp.Domain.{DomainErrorKind, parse_identifier, parse_device_id, parse_opaque_id}
use wdlp.Protocol.{
  api_version_v1, configuration_schema_version_v1, ProtocolError, unsupported_version,
  invalid_field, Checked, require_v1, require_nonempty, and_then,
}

pub record ConfigurationEnvelopeV1 : Type 0 where
  pub version : ℕ
  pub schema_version : ℕ
  pub device_id : Bytes
  pub bundle_version : Bytes
  pub issued_at_epoch_seconds : ℕ
  pub payload : Bytes

unfoldable pub new_envelope : ℕ → Bytes → Bytes → ℕ → Bytes → Checked ConfigurationEnvelopeV1
new_envelope schema_version device_id bundle_version issued_at payload =
    if not (schema_version == configuration_schema_version_v1)
    then err (unsupported_version "ConfigurationEnvelopeV1 schema" schema_version)
    else and_then (require_nonempty "configuration payload" payload) (
        ok (record {
          version = api_version_v1;
          schema_version = schema_version;
          device_id = device_id;
          bundle_version = bundle_version;
          issued_at_epoch_seconds = issued_at;
          payload = payload;
        }))

abbrev pub configuration_envelope_prefix : Bytes
configuration_envelope_prefix = codes "dlp-configuration-envelope/v1" ++ 0 ∷ []

unfoldable pub canonical_fields : ConfigurationEnvelopeV1 → Bytes
canonical_fields e =
    to_be_bytes 2 e.version
    ++ (to_be_bytes 2 e.schema_version
        ++ (append_bytes e.device_id
            ++ (append_bytes e.bundle_version
                ++ (to_be_bytes 8 e.issued_at_epoch_seconds ++ append_bytes e.payload))))

unfoldable pub canonical_bytes : ConfigurationEnvelopeV1 → Bytes
canonical_bytes e = configuration_envelope_prefix ++ canonical_fields e

-- `CanonicalReader` holds the bytes that remain.
abbrev pub CanonicalRead : Type 0 → Type 0
CanonicalRead A = Read Bytes ProtocolError A

unfoldable pub take_bytes : ℕ → CanonicalRead Bytes
take_bytes count remaining =
    if ltb (length remaining) count
    then err (invalid_field "configuration envelope")
    else ok (take count remaining, drop count remaining)

-- `map_err(|_| e)`
abbrev pub or_invalid {ℓ} : {E : Type ℓ} → String → Result E Bytes → Checked Bytes
or_invalid field (ok a) = ok a
or_invalid field (err _) = err (invalid_field field)

unfoldable pub read_envelope : CanonicalRead ConfigurationEnvelopeV1
unfolding take_bytes
read_envelope = do
  version ← integer_be take_bytes 2
  lift (require_v1 "ConfigurationEnvelopeV1" version)
  schema_version ← integer_be take_bytes 2
  device_id ← text_be take_bytes (invalid_field "configuration device")
  bundle_version ← text_be take_bytes (invalid_field "configuration bundle version")
  issued_at ← integer_be take_bytes 8
  payload ← text_be take_bytes (invalid_field "configuration payload")
  reject_if (invalid_field "configuration envelope") (λ remaining. not (is_empty remaining))
  device ← lift (or_invalid "configuration device" (parse_device_id device_id))
  bundle ← lift (or_invalid "configuration bundle version" (parse_opaque_id bundle_version))
  lift (new_envelope schema_version device bundle issued_at payload)

abbrev pub exactly : Bytes → Checked ConfigurationEnvelopeV1 → Checked ConfigurationEnvelopeV1
exactly canonical (err e) = err e
exactly canonical (ok envelope) =
    if bytes_eq (canonical_bytes envelope) canonical
    then ok envelope
    else err (invalid_field "configuration envelope")

unfoldable pub from_canonical_bytes : Bytes → Checked ConfigurationEnvelopeV1
unfolding read_envelope canonical_bytes
from_canonical_bytes canonical =
    if starts_with configuration_envelope_prefix canonical
    then exactly canonical
        (finish (read_envelope (drop (length configuration_envelope_prefix) canonical)))
    else err (invalid_field "configuration envelope")

pub record SignedConfigurationV1 : Type 0 where
  pub version : ℕ
  pub envelope : ConfigurationEnvelopeV1
  pub key_id : Bytes
  pub signature : Bytes
  pub content_digest : Bytes
  pub audience : Bytes

module _ (sha256 : Bytes → Bytes) where
  unfoldable pub new_signed_configuration :
      ConfigurationEnvelopeV1 → Bytes → Bytes → Checked SignedConfigurationV1
  new_signed_configuration envelope key_id signature =
      and_then (require_nonempty "key identifier" key_id) (
        if is_empty signature
        then err (invalid_field "signature")
        else ok (record {
          version = api_version_v1;
          envelope = envelope;
          key_id = key_id;
          signature = signature;
          content_digest = sha256 (canonical_bytes envelope);
          audience = envelope.device_id;
        }))
