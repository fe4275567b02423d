-- ===== src/Agent/Cache/Wire.antt =====
-- `serialize_signed_configuration` and `deserialize_signed_configuration` of
-- crates/dlp-agent-core/src/config_cache.rs.
pub mod RoundTrip
use wdlp.Base.{ℕ, not, [], ◌++◌, ◌==◌, if◌then◌else◌}
use wdlp.Base.Bytes.{Bytes, bytes_eq, to_be_bytes}
use wdlp.Base.Results.{Result, ok, err}
use wdlp.Base.Reader.{◌>>=◌, ◌>>◌, pure, reject_if, finish}
use wdlp.Base.Wire.{append_bytes, lift, integer_be, sized_be, text_be}
use wdlp.Domain.{parse_device_id, parse_opaque_id}
use wdlp.Protocol.Envelope.{
  ConfigurationEnvelopeV1, new_envelope, canonical_bytes, SignedConfigurationV1,
  new_signed_configuration,
}
use wdlp.Agent.Cache.{
  CacheError, unsupported_schema_version, invalid_content_hash, invalid_wire_format, ByteRead, new,
  read_fixed_bytes, expect_empty,
}

abbrev pub wire_format_version : ℕ
wire_format_version = 1

unfoldable pub serialize_signed_configuration : SignedConfigurationV1 → Bytes
serialize_signed_configuration s =
    to_be_bytes 1 wire_format_version
    ++ (to_be_bytes 2 s.version
        ++ (to_be_bytes 2 s.envelope.schema_version
            ++ (append_bytes s.key_id
                ++ (append_bytes s.envelope.device_id
                    ++ (append_bytes s.envelope.bundle_version
                        ++ (to_be_bytes 8 s.envelope.issued_at_epoch_seconds
                            ++ (append_bytes s.envelope.payload
                                ++ (append_bytes s.signature ++ s.content_digest))))))))

-- `map_err(|_| CacheError::InvalidWireFormat)`
abbrev pub or_wire_format : {E A : Type 0} → Result E A → Result CacheError A
or_wire_format (ok a) = ok a
or_wire_format (err _) = err invalid_wire_format

module _ (sha256 : Bytes → Bytes) where
  unfoldable pub read_signed : ByteRead SignedConfigurationV1
  read_signed = do
    format_version ← integer_be read_fixed_bytes 1
    reject_if invalid_wire_format (λ _. not (format_version == wire_format_version))
    api_version ← integer_be read_fixed_bytes 2
    reject_if invalid_wire_format (λ _. not (api_version == 1))
    schema_version ← integer_be read_fixed_bytes 2
    reject_if unsupported_schema_version (λ _. not (schema_version == 1))
    key_id ← text_be read_fixed_bytes invalid_wire_format
    device_id ← text_be read_fixed_bytes invalid_wire_format
    bundle_version ← text_be read_fixed_bytes invalid_wire_format
    issued_at ← integer_be read_fixed_bytes 8
    payload ← text_be read_fixed_bytes invalid_wire_format
    signature ← sized_be read_fixed_bytes
    content_digest ← read_fixed_bytes 32
    expect_empty
    device ← lift (or_wire_format (parse_device_id device_id))
    bundle ← lift (or_wire_format (parse_opaque_id bundle_version))
    envelope ← lift (or_wire_format (new_envelope schema_version device bundle issued_at payload))
    reject_if invalid_content_hash
        (λ _. not (bytes_eq (sha256 (canonical_bytes envelope)) content_digest))
    lift (or_wire_format (new_signed_configuration sha256 envelope key_id signature))

  unfoldable pub deserialize_signed_configuration : Bytes → Result CacheError SignedConfigurationV1
  unfolding read_signed
  deserialize_signed_configuration bytes = finish (read_signed (new bytes))
