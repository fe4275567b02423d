-- ===== src/Protocol/Envelope/Decoding.antt =====
-- An envelope is decoded from its canonical bytes, and from no others.
use wdlp.Base.{
  ◌<◌, ◌≤◌, ◌^◌, ◌≡◌, ◌↔◌, refl, sym, ap, ◌∙◌, Bool, true, false, All, all, [], ◌∷◌, ◌++◌, length,
  length-append, take-append, drop-append, ltb, arith, Bool-cases, inl, inr,
}
use wdlp.Base.Bytes.{
  Bytes, bytes_eq, bytes_eq_iff, starts_with, starts_with-append, length-to_be_bytes,
}
use wdlp.Base.Results.{ok, err}
use wdlp.Base.Reader.{Fits, Parses, Ends, Ends-bind, Ends-check, Ends-Parses, Ends-last, reject_if}
use wdlp.Base.Wire.{length-append_bytes, lift, Parses-lift, integer_be-Parses, text_be-Parses}
use wdlp.Base.Utf8.{utf8_valid, utf8_valid_of_ascii, is_ascii}
use wdlp.Domain.{parse_identifier, parse_device_id, parse_opaque_id}
use wdlp.Domain.Laws.{IsPlain, parse_identifier-IsSafeName}
use wdlp.Protocol.{ProtocolError, Checked, require_v1}
use wdlp.Protocol.Envelope.{
  ConfigurationEnvelopeV1, new_envelope, configuration_envelope_prefix, canonical_fields,
  canonical_bytes, take_bytes, read_envelope, exactly, from_canonical_bytes,
}

-- What `remaining` holds in front of `after`.
abbrev pub at : Bytes → Bytes → Bytes
at before after = after

pub take_bytes-Parses : (field : Bytes) → Parses at (take_bytes (length field)) field field
unfolding take_bytes
take_bytes-Parses field = record {
  run = λ before after h.
      let enough : ltb (length (field ++ after)) (length field) ≡ false =
        ground (arith, length-append field after) in
      rw (enough, take-append, drop-append);
}

-- An envelope that `new` made of parsed identifiers, a time and a text.
pub record IsEnvelope (e : ConfigurationEnvelopeV1) : Type 0 where
  pub device : parse_device_id e.device_id ≡ ok e.device_id
  pub bundle : parse_opaque_id e.bundle_version ≡ ok e.bundle_version
  pub issued : e.issued_at_epoch_seconds < 2 ^ 64
  pub text : utf8_valid e.payload ≡ true
  pub made :
      new_envelope e.schema_version e.device_id e.bundle_version e.issued_at_epoch_seconds e.payload
      ≡ ok e

module _ (e : ConfigurationEnvelopeV1) (is : IsEnvelope e) where
  pub versions : (e.version ≡ 1) × (e.schema_version ≡ 1) × (length e.payload ≤ 65536)
  unfolding new_envelope
  versions = let made = is.made in ground arith

plain-ascii : (bs : Bytes) → All IsPlain bs → all is_ascii bs ≡ true
plain-ascii [] h = refl
plain-ascii (b ∷ bs) (h, hs) = ground (arith, plain-ascii bs hs)

-- Identifiers have lengths of a few bytes and are texts.
pub identifier-text :
    (allow_dot : Bool) (value : Bytes)
    → parse_identifier allow_dot value ≡ ok value
    → (length value < 2 ^ 32) × (utf8_valid value ≡ true)
identifier-text allow_dot value h =
    let (_, safe) = parse_identifier-IsSafeName allow_dot value h in
    (omega (arith, safe.short), utf8_valid_of_ascii value (plain-ascii value safe.plain))

exactly-canonical :
    (bytes : Bytes) (r : Checked ConfigurationEnvelopeV1) {e : ConfigurationEnvelopeV1}
    → exactly bytes r ≡ ok e
    → bytes ≡ canonical_bytes e
exactly-canonical bytes (err e') h = cc
exactly-canonical bytes (ok e') h = elim (Bool-cases (bytes_eq (canonical_bytes e') bytes)) [
  | inl same ↦
      let e-eq : e' ≡ _ = cc (rw same at h) in
      sym ((bytes_eq_iff (canonical_bytes e') bytes).0 same) ∙ ap canonical_bytes e-eq
  | inr other ↦ absurd (ground arith)
]

module _ (e : ConfigurationEnvelopeV1) (is : IsEnvelope e) where
  read_envelope-Ends : Ends at read_envelope (canonical_fields e) e
  unfolding read_envelope canonical_fields
  read_envelope-Ends =
      let (version, schema, size) = versions e is in
      let (device_size, device_text) = identifier-text true e.device_id is.device in
      let (bundle_size, bundle_text) = identifier-text false e.bundle_version is.bundle in
      let accepted : require_v1 "ConfigurationEnvelopeV1" e.version ≡ ok tt = rw version refl in
      Ends-bind _ (integer_be-Parses take_bytes take_bytes-Parses 2 e.version (omega arith)) (
        Ends-check _ _ {a = tt} (λ before. unfold lift in rw accepted refl)
          (Ends-bind _
            (integer_be-Parses take_bytes take_bytes-Parses 2 e.schema_version (omega arith))
            (Ends-bind _
              (text_be-Parses take_bytes take_bytes-Parses _ e.device_id device_size device_text)
              (Ends-bind _
                (text_be-Parses take_bytes take_bytes-Parses _ e.bundle_version bundle_size
                  bundle_text)
                (Ends-bind _
                  (integer_be-Parses take_bytes take_bytes-Parses 8 e.issued_at_epoch_seconds
                    is.issued)
                  (Ends-last _
                    (text_be-Parses take_bytes take_bytes-Parses _ e.payload (omega arith) is.text)
                    (Ends-check _ _ {a = tt} (λ before. unfold reject_if in refl)
                      (Ends-check _ _ {a = e.device_id} (λ before. unfold lift in rw is.device refl)
                        (Ends-check _ _ {a = e.bundle_version}
                          (λ before. unfold lift in rw is.bundle refl)
                          (Ends-Parses (Parses-lift is.made)))))))))))

  canonical_fields-Fits : Fits [] (canonical_fields e)
  unfolding canonical_fields
  canonical_fields-Fits =
      let (_, _, size) = versions e is in
      let (_, device) = parse_identifier-IsSafeName true e.device_id is.device in
      let (_, bundle) = parse_identifier-IsSafeName false e.bundle_version is.bundle in
      simp (length-append, length-to_be_bytes, length-append_bytes)
        (omega (arith, device.short, bundle.short))

  decoded : from_canonical_bytes (canonical_bytes e) ≡ ok e
  unfolding from_canonical_bytes canonical_bytes
  decoded =
      rw (starts_with-append, drop-append, read_envelope-Ends.run [] canonical_fields-Fits)
        (rw ((bytes_eq_iff (canonical_bytes e) (canonical_bytes e)).1 refl) refl)

  -- An envelope that `new` made of parsed identifiers is decoded from its canonical bytes, and from
  -- no other bytes.
  pub from_canonical_iff :
      (bytes : Bytes) → (from_canonical_bytes bytes ≡ ok e) ↔ (bytes ≡ canonical_bytes e)
  unfolding from_canonical_bytes
  from_canonical_iff bytes = (
    λ h. elim (Bool-cases (starts_with configuration_envelope_prefix bytes)) [
      | inl signed ↦ exactly-canonical bytes _ (rw signed at h)
      | inr other ↦ absurd (differs (rw other at h))
    ],
    λ h. rw h decoded,
  )
    where
      differs : {e' : ProtocolError} → ◌≡◌ {A = Checked ConfigurationEnvelopeV1} (err e') (ok e) → ⊥
      differs k = cc k
