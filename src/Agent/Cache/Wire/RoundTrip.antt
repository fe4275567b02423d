-- ===== src/Agent/Cache/Wire/RoundTrip.antt =====
-- A signed configuration is read back from the cache's wire format.
use wdlp.Base.{◌<◌, ◌≤◌, ◌^◌, ◌≡◌, refl, true, false, not, [], length, length-append, ◌==◌, arith}
use wdlp.Base.Bytes.{Bytes, bytes_eq, bytes_eq_refl, length-to_be_bytes}
use wdlp.Base.Results.{ok}
use wdlp.Base.Reader.{Fits, Parses, Ends, Ends-bind, Ends-check, Ends-Parses, Ends-last, reject_if}
use wdlp.Base.Wire.{
  length-append_bytes, lift, Parses-lift, integer_be-Parses, sized_be-Parses, text_be-Parses,
}
use wdlp.Base.Utf8.{utf8_valid}
use wdlp.Domain.Laws.{parse_identifier-IsSafeName}
use wdlp.Protocol.Envelope.{SignedConfigurationV1, new_signed_configuration, canonical_bytes}
use wdlp.Protocol.Envelope.Decoding.{IsEnvelope, versions, identifier-text}
use wdlp.Agent.Cache.{read_fixed_bytes}
use wdlp.Agent.Cache.Reading.{at, read_fixed_bytes-Parses, expect_empty-ends}
use wdlp.Agent.Cache.Wire.{
  serialize_signed_configuration, read_signed, deserialize_signed_configuration,
}

module _ (sha256 : Bytes → Bytes) where
  -- A signed configuration that `new` made of an envelope, a text for the key and a signature.
  pub record IsSigned (s : SignedConfigurationV1) : Type 0 where
    pub envelope : IsEnvelope s.envelope
    pub key_text : utf8_valid s.key_id ≡ true
    pub signature_fits : length s.signature < 2 ^ 32
    pub digest_size : length (sha256 (canonical_bytes s.envelope)) ≡ 32
    pub made : new_signed_configuration sha256 s.envelope s.key_id s.signature ≡ ok s

  module _ (s : SignedConfigurationV1) (is : IsSigned s) where
    pub signed_fields :
        (s.version ≡ 1)
        × (length s.key_id ≤ 65536)
        × (s.content_digest ≡ sha256 (canonical_bytes s.envelope))
        × (s.audience ≡ s.envelope.device_id)
    unfolding new_signed_configuration
    signed_fields = let made = is.made in ground arith

    read_signed-Ends : Ends at (read_signed sha256) (serialize_signed_configuration s) s
    unfolding read_signed serialize_signed_configuration
    read_signed-Ends =
        let e = s.envelope in
        let env = is.envelope in
        let (version, key_size, digest, _) = signed_fields in
        let (_, schema, size) = versions e env in
        let (device_size, device_text) = identifier-text true e.device_id env.device in
        let (bundle_size, bundle_text) = identifier-text false e.bundle_version env.bundle in
        let digest_size : length s.content_digest ≡ 32 = rw digest is.digest_size in
        let takes = read_fixed_bytes-Parses in
        let schema_known : (not (e.schema_version == 1)) ≡ false = rw schema refl in
        let version_known : (not (s.version == 1)) ≡ false = rw version refl in
        let take_digest : Parses at (read_fixed_bytes 32) s.content_digest s.content_digest =
          (rw digest_size at (takes s.content_digest)) in
        let same_digest : (not (bytes_eq (sha256 (canonical_bytes e)) s.content_digest)) ≡ false =
          rw digest (rw (bytes_eq_refl (sha256 (canonical_bytes e))) refl) in
        Ends-bind _ (integer_be-Parses read_fixed_bytes takes 1 1 (omega arith)) (
          Ends-check _ _ {a = tt} (λ before. unfold reject_if in refl)
            (Ends-bind _ (integer_be-Parses read_fixed_bytes takes 2 s.version (omega arith)) (
              Ends-check _ _ {a = tt} (λ before. unfold reject_if in rw version_known refl)
                (Ends-bind _
                  (integer_be-Parses read_fixed_bytes takes 2 e.schema_version (omega arith))
                  (Ends-check _ _ {a = tt} (λ before. unfold reject_if in rw schema_known refl)
                    (Ends-bind _
                      (text_be-Parses read_fixed_bytes takes _ s.key_id (omega arith) is.key_text)
                      (Ends-bind _
                        (text_be-Parses read_fixed_bytes takes _ e.device_id device_size
                          device_text)
                        (Ends-bind _
                          (text_be-Parses read_fixed_bytes takes _ e.bundle_version bundle_size
                            bundle_text)
                          (Ends-bind _
                            (integer_be-Parses read_fixed_bytes takes 8 e.issued_at_epoch_seconds
                              env.issued)
                            (Ends-bind _
                              (text_be-Parses read_fixed_bytes takes _ e.payload (omega arith)
                                env.text)
                              (Ends-bind _
                                (sized_be-Parses read_fixed_bytes takes s.signature
                                  is.signature_fits)
                                (Ends-last _ take_digest (
                                  Ends-check _ _ {a = tt} expect_empty-ends (
                                    Ends-check _ _ {a = e.device_id}
                                      (λ before. unfold lift in rw env.device refl)
                                      (Ends-check _ _ {a = e.bundle_version}
                                        (λ before. unfold lift in rw env.bundle refl)
                                        (Ends-check _ _ {a = e}
                                          (λ before. unfold lift in rw env.made refl)
                                          (Ends-check _ _ {a = tt}
                                            (λ before. unfold reject_if in rw same_digest refl)
                                            (Ends-Parses
                                              (Parses-lift (rw is.made refl))))))))))))))))))))

    serialized-Fits : Fits [] (serialize_signed_configuration s)
    unfolding serialize_signed_configuration
    serialized-Fits =
        let e = s.envelope in
        let env = is.envelope in
        let (_, key_size, digest, _) = signed_fields in
        let (_, _, size) = versions e env in
        let (_, device) = parse_identifier-IsSafeName true e.device_id env.device in
        let (_, bundle) = parse_identifier-IsSafeName false e.bundle_version env.bundle in
        let digest_size : length s.content_digest ≡ 32 = rw digest is.digest_size in
        simp (length-append, length-to_be_bytes, length-append_bytes)
          (omega (arith, device.short, bundle.short, is.signature_fits))

    -- A signed configuration that `new` made is read back, whole, from what is written of it; where
    -- its signature has less than 2^32 bytes and a digest has 32.
    pub deserialize-serialize :
        deserialize_signed_configuration sha256 (serialize_signed_configuration s) ≡ ok s
    unfolding deserialize_signed_configuration
    deserialize-serialize = rw (read_signed-Ends.run [] serialized-Fits) refl
