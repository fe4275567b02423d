-- ===== src/Agent/Cache/Activation/Admission.antt =====
-- What `stage_verify_activate` of crates/dlp-agent-core/src/config_cache.rs has checked of the bytes
-- that it admits.
use wdlp.Base.{
  ℕ, ◌+◌, ◌-◌, ◌*◌, ◌^◌, ◌<◌, ◌≡◌, ◌&&◌, [], ◌∷◌, length, All, ltb, ◌==◌, some, Bool-cases,
  Option-cases, subst, inl, inr, arith,
}
use wdlp.Base.Bytes.{Bytes, IsByte, bytes_eq, bytes_eq_iff}
use wdlp.Base.Results.{Result, ok, err, ok_or, Result-cases}
use wdlp.Base.Utf8.{between}
use wdlp.Crypto.Verifier.{Ed25519, ConfigurationVerifier, verify}
use wdlp.Protocol.Envelope.{SignedConfigurationV1, canonical_bytes}
use wdlp.Agent.Cache.{
  CacheError, invalid_wire_format, parse_digits, parse_unsigned, parse_u64, parse_bundle_version,
}
use wdlp.Agent.Cache.Wire.{deserialize_signed_configuration}
use wdlp.Agent.Cache.Activation.{Admitted, check_signed, admit}

parse_digits-lt :
    (bs : Bytes) (value : ℕ) {n : ℕ} → value < 2 ^ 64 → parse_digits value bs ≡ some n → n < 2 ^ 64
parse_digits-lt [] value h e = ground arith
parse_digits-lt (b ∷ bs) value h e =
    elim (Bool-cases (between b'0' b'9' b && ltb (value * 10 + (b - b'0')) (2 ^ 64))) [
      | inl digit ↦ parse_digits-lt bs (value * 10 + (b - b'0')) (ground arith) (rw digit at e)
      | inr other ↦ cc (rw other at e)
    ]

parse_unsigned-lt : (bs : Bytes) {n : ℕ} → parse_unsigned bs ≡ some n → n < 2 ^ 64
parse_unsigned-lt [] e = cc
parse_unsigned-lt (b ∷ bs) e = parse_digits-lt (b ∷ bs) 0 (omega arith) e

parse_ok-lt :
    (bs : Bytes) {n : ℕ} → ok_or (parse_unsigned bs) invalid_wire_format ≡ ok n → n < 2 ^ 64
parse_ok-lt bs {n} e = elim (Option-cases (parse_unsigned bs)) [
  | inl nothing ↦ absurd (no_version (rw nothing at e))
  | inr (m, found) ↦
      let same : m ≡ n = cc (rw found at e) in
      subst (λ k. k < 2 ^ 64) same (parse_unsigned-lt bs found)
]
  where
    no_version : {n : ℕ} → ◌≡◌ {A = Result CacheError ℕ} (err invalid_wire_format) (ok n) → ⊥
    no_version e = cc e

-- A version that is parsed is a `u64`.
pub parse_bundle_version-lt : (bs : Bytes) {n : ℕ} → parse_bundle_version bs ≡ ok n → n < 2 ^ 64
unfolding parse_u64
parse_bundle_version-lt [] e = cc
parse_bundle_version-lt (b ∷ bs) e = elim (Bool-cases (b == b'+')) [
  | inl plus ↦ parse_ok-lt bs (rw plus at e)
  | inr digit ↦ parse_ok-lt (b ∷ bs) (rw digit at e)
]

refused : {e : CacheError} {a : Admitted} → ¬ ◌≡◌ {A = Result CacheError Admitted} (err e) (ok a)
refused e = cc e

ok_injective : {a b : Admitted} → ◌≡◌ {A = Result CacheError Admitted} (ok a) (ok b) → a ≡ b
ok_injective e = cc e

-- What a cache trusts: a digest of 32 bytes, a signature scheme, the verifier of one key, and the
-- device that the bundles are for.
pub record Trust : Type 0 where
  pub sha256 : Bytes → Bytes
  pub digest_size : (message : Bytes) → (length (sha256 message) ≡ 32) × All IsByte (sha256 message)
  pub ed25519 : Ed25519
  pub verifier : ConfigurationVerifier
  pub device_id : Bytes

module _ (trust : Trust) where
  open trust use {sha256, ed25519, verifier, device_id}

  -- The bytes are those of a bundle for this device, whose digest is that of its envelope and whose
  -- signature the verifier accepts.
  pub record IsAdmitted (bytes : Bytes) (a : Admitted) : Type 0 where
    pub content : deserialize_signed_configuration sha256 bytes ≡ ok a.signed
    pub digest : a.signed.content_digest ≡ sha256 (canonical_bytes a.signed.envelope)
    pub signature :
        verify ed25519 verifier a.signed.envelope.schema_version a.signed.key_id
          (canonical_bytes a.signed.envelope)
          a.signed.signature
        ≡ ok tt
    pub audience : a.signed.audience ≡ device_id
    pub version : parse_bundle_version a.signed.envelope.bundle_version ≡ ok a.version

  admit-cases :
      (bytes : Bytes) (signed : SignedConfigurationV1) {a : Admitted}
      → deserialize_signed_configuration sha256 bytes ≡ ok signed
      → check_signed sha256 ed25519 verifier device_id signed ≡ ok a
      → IsAdmitted bytes a
  admit-cases bytes signed {a} content h =
      let e = signed.envelope in
      elim (Bool-cases (bytes_eq signed.content_digest (sha256 (canonical_bytes e)))) [
        | inr other ↦ absurd (refused (rw other at h))
        | inl same ↦
            elim (Result-cases (
              verify ed25519 verifier e.schema_version signed.key_id (canonical_bytes e)
                signed.signature)) [
                  | inr (_, bad) ↦ absurd (refused (rw (same, bad) at h))
                  | inl (u, good) ↦ elim (Bool-cases (bytes_eq signed.audience device_id)) [
                    | inr other ↦ absurd (refused (rw (same, good, other) at h))
                    | inl own ↦ elim (Result-cases (parse_bundle_version e.bundle_version)) [
                      | inr (_, bad) ↦ absurd (refused (rw (same, good, own, bad) at h))
                      | inl (version, parsed) ↦
                          let made : record { signed = signed; version = version } ≡ a =
                            ok_injective (rw (same, good, own, parsed) at h) in
                          subst (IsAdmitted bytes) made (record {
                            content = content;
                            digest = (bytes_eq_iff _ _).0 same;
                            signature = good;
                            audience = (bytes_eq_iff _ _).0 own;
                            version = parsed;
                          })
                    ]
                  ]
                ]
      ]

  pub admit-IsAdmitted :
      (bytes : Bytes) {a : Admitted}
      → admit sha256 ed25519 verifier device_id bytes ≡ ok a
      → IsAdmitted bytes a
  unfolding admit
  admit-IsAdmitted bytes h = elim (Result-cases (deserialize_signed_configuration sha256 bytes)) [
    | inl (signed, content) ↦ admit-cases bytes signed content (rw content at h)
    | inr (e, failed) ↦ absurd (refused (rw failed at h))
  ]
