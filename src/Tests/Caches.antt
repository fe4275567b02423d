-- ===== src/Tests/Caches.antt =====
-- Runs of crates/dlp-protocol/src/lib.rs and crates/dlp-agent-core/src/config_cache.rs, with a digest
-- that is the length of a message and one signature that is always accepted.
use wdlp.Base.{
  ◌≡◌, ◌↔◌, refl, true, false, [], length, replicate, All, ◌%◌, Option, none, some, arith,
}
use wdlp.Base.Bytes.{Bytes, IsByte, codes, bytes_eq, bytes_eq_refl}
use wdlp.Base.Results.{ok, err}
use wdlp.Crypto.Verifier.{Ed25519, verify}
use wdlp.Domain.{parse_identifier}
use wdlp.Protocol.Envelope.{
  ConfigurationEnvelopeV1, new_envelope, canonical_bytes, from_canonical_bytes,
  SignedConfigurationV1, new_signed_configuration,
}
use wdlp.Protocol.Envelope.Decoding.{IsEnvelope, from_canonical_iff}
use wdlp.Agent.Cache.{CacheError, CachePointers, no_pointers, parse_u64}
use wdlp.Agent.Cache.Wire.{serialize_signed_configuration, deserialize_signed_configuration}
use wdlp.Agent.Cache.Wire.RoundTrip.{IsSigned, deserialize-serialize}
use wdlp.Agent.Cache.Pointers.{serialize_pointers, deserialize_pointers}
use wdlp.Agent.Cache.Pointers.RoundTrip.{deserialize_pointers-serialize}
use wdlp.Agent.Cache.Activation.{
  Host, Cache, Admitted, admit, activated, current_bundle, lkg_bundle, pointers_path,
}
use wdlp.Agent.Cache.Activation.Admission.{Trust}
use wdlp.Agent.Cache.Activation.Invariant.{IsSound}
use wdlp.Agent.Cache.Activation.Soundness.{activation, activation-IsSound}
use wdlp.Agent.Cache.Activation.Loading.{
  IsCalm, Trusted, activation-works, activation-unseen, bundles-IsSound,
}
use wdlp.Agent.Cache.Activation.Outcomes.{IsActivated, activation-ok, activation-err}
use wdlp.Agent.Cache.Activation.Versions.{
  NotOlder, selected_version, Step, Steps, here, then_step, restarts, Steps-NotOlder,
}
use wdlp.Base.Utf8.{utf8_valid}
use wdlp.Base.Decimal.{to_decimal}
use wdlp.Agent.Health.{from_cache}
use wdlp.Agent.Health.Reports.{from_cache-activation}

abbrev digest_of : Bytes → Bytes
digest_of message = replicate 32 (length message % 256)

digest_of-size :
    (message : Bytes) → (length (digest_of message) ≡ 32) × All IsByte (digest_of message)
digest_of-size message = (refl, omega arith)

abbrev one_signature : Bytes
one_signature = replicate 64 7

one_signature_accepted : (seed message : Bytes) → bytes_eq one_signature one_signature ≡ true
one_signature_accepted seed message = bytes_eq_refl one_signature

abbrev accepting : Ed25519
accepting = record {
  from_bytes = λ bytes. some bytes;
  is_weak = λ key. false;
  verify_strict = λ key message signature. bytes_eq signature one_signature;
  verifying_key = λ seed. seed;
  sign = λ seed message. one_signature;
  length-sign = λ seed message. refl;
  verify_strict-sign = λ seed message strong. one_signature_accepted seed message;
}

abbrev a_trust : Trust
a_trust = record {
  sha256 = digest_of;
  digest_size = digest_of-size;
  ed25519 = accepting;
  verifier = record { key_id = codes "key-01"; verifying_key = codes "key" };
  device_id = codes "device-01";
}

abbrev an_envelope : ConfigurationEnvelopeV1
an_envelope = record {
  version = 1;
  schema_version = 1;
  device_id = codes "device-01";
  bundle_version = codes "7";
  issued_at_epoch_seconds = 1700000000;
  payload = codes "allow";
}

an_envelope-IsEnvelope : IsEnvelope an_envelope
unfolding parse_identifier new_envelope utf8_valid
an_envelope-IsEnvelope = record {
  device = refl;
  bundle = refl;
  issued = omega arith;
  text = refl;
  made = refl;
}

from_canonical_iff_example :
    (from_canonical_bytes (canonical_bytes an_envelope) ≡ ok an_envelope)
    ↔ (canonical_bytes an_envelope ≡ canonical_bytes an_envelope)
from_canonical_iff_example =
    from_canonical_iff an_envelope an_envelope-IsEnvelope (canonical_bytes an_envelope)

abbrev a_signed : SignedConfigurationV1
a_signed = record {
  version = 1;
  envelope = an_envelope;
  key_id = codes "key-01";
  signature = one_signature;
  content_digest = digest_of (canonical_bytes an_envelope);
  audience = codes "device-01";
}

a_signed-IsSigned : IsSigned digest_of a_signed
unfolding new_signed_configuration utf8_valid
a_signed-IsSigned = record {
  envelope = an_envelope-IsEnvelope;
  key_text = refl;
  signature_fits = omega arith;
  digest_size = refl;
  made = refl;
}

deserialize-serialize_example :
    deserialize_signed_configuration digest_of (serialize_signed_configuration a_signed)
    ≡ ok a_signed
deserialize-serialize_example = deserialize-serialize digest_of a_signed a_signed-IsSigned

abbrev some_pointers : CachePointers
some_pointers = record {
  current_digest = some (replicate 32 9);
  current_version = some 7;
  lkg_digest = none;
  lkg_version = none;
}

deserialize_pointers-serialize_example :
    deserialize_pointers (serialize_pointers some_pointers 3) ≡ ok some_pointers
deserialize_pointers-serialize_example =
    deserialize_pointers-serialize some_pointers
      (record { current = (refl, omega arith); lkg = tt }) 3 (omega arith)

abbrev calm_host : Host
calm_host = record { fault = λ k. false; torn = λ k. 0; unseen = λ k. false; listing = λ k. [] }

abbrev empty_cache : Cache
empty_cache = record { disk = λ path. none; generation = 0; calls = 0 }

empty_cache-IsSound : IsSound a_trust empty_cache
empty_cache-IsSound = record { generation = omega arith; selected = tt }

abbrev a_bundle : Bytes
a_bundle = serialize_signed_configuration a_signed

abbrev admitted_7 : Admitted
admitted_7 = record { signed = a_signed; version = 7 }

a_bundle-admitted :
    admit digest_of accepting a_trust.verifier (codes "device-01") a_bundle ≡ ok admitted_7
unfolding admit verify parse_u64 bytes_eq
a_bundle-admitted =
    rw (deserialize-serialize_example, bytes_eq_refl (digest_of (canonical_bytes an_envelope))) refl

calm_host-IsCalm : IsCalm calm_host
calm_host-IsCalm = record { works = λ k. refl; seen = λ k. refl }

activates :
    (activation a_trust calm_host a_bundle empty_cache).0
    ≡ ok (activated 7 (digest_of (canonical_bytes an_envelope)))
activates =
    activation-works a_trust calm_host a_bundle empty_cache {p = no_pointers} calm_host-IsCalm refl
      a_bundle-admitted tt

activation-works_example :
    (activation a_trust calm_host a_bundle empty_cache).0
    ≡ ok (activated 7 (digest_of (canonical_bytes an_envelope)))
activation-works_example =
    activation-works a_trust calm_host a_bundle empty_cache {p = no_pointers} calm_host-IsCalm refl
      a_bundle-admitted tt

abbrev activated_cache : Cache
activated_cache = (activation a_trust calm_host a_bundle empty_cache).1

activation-ok_example :
    IsActivated a_trust calm_host a_bundle empty_cache activated_cache
      (activated 7 (digest_of (canonical_bytes an_envelope)))
activation-ok_example =
    activation-ok a_trust calm_host a_bundle empty_cache empty_cache-IsSound activates

activation-err_example :
    ((error : CacheError)
      → (activation a_trust calm_host (codes "no bundle") empty_cache).0 ≡ err error
      → ((activation a_trust calm_host (codes "no bundle") empty_cache).1.disk pointers_path ≡ none)
        × ((activation a_trust calm_host (codes "no bundle") empty_cache).1.generation ≡ 0))
    × ((reason : CacheError)
        → admit digest_of accepting a_trust.verifier (codes "device-01") (codes "no bundle")
          ≡ err reason
        → (error : CacheError) × ((activation a_trust calm_host (codes "no bundle") empty_cache).0
            ≡ err error)
          × ((activation a_trust calm_host (codes "no bundle") empty_cache).1.disk
              ≡ empty_cache.disk))
activation-err_example = activation-err a_trust calm_host (codes "no bundle") empty_cache

activation-IsSound_example : IsSound a_trust activated_cache
activation-IsSound_example =
    activation-IsSound a_trust calm_host a_bundle empty_cache empty_cache-IsSound

two_steps : Steps a_trust calm_host empty_cache (record activated_cache { generation = 0 })
two_steps = then_step (then_step here (Step.activates a_bundle refl)) (restarts refl)

Steps-NotOlder_example :
    IsSound a_trust (record activated_cache { generation = 0 })
    × NotOlder
        (selected_version empty_cache)
        (selected_version (record activated_cache { generation = 0 }))
Steps-NotOlder_example = Steps-NotOlder a_trust calm_host (λ k. refl) two_steps empty_cache-IsSound

activated_cache-IsSound : IsSound a_trust activated_cache
activated_cache-IsSound =
    activation-IsSound a_trust calm_host a_bundle empty_cache empty_cache-IsSound

bundles-IsSound_example :
    ((o : Option SignedConfigurationV1) × ((current_bundle calm_host digest_of activated_cache).0
        ≡ ok o)
      × Trusted a_trust calm_host calm_host-IsCalm o)
    × ((o : Option SignedConfigurationV1) × ((lkg_bundle calm_host digest_of activated_cache).0
          ≡ ok o)
        × Trusted a_trust calm_host calm_host-IsCalm o)
bundles-IsSound_example =
    bundles-IsSound a_trust calm_host calm_host-IsCalm activated_cache activated_cache-IsSound

-- The pointers' file cannot be seen, and version 7 is activated over version 9.
abbrev blind_host : Host
blind_host = record calm_host { unseen = λ k. true }

abbrev cache_9 : Cache
cache_9 = record empty_cache {
  disk = λ path. some (serialize_pointers (record some_pointers { current_version = some 9 }) 1);
}

activation-unseen_example :
    (activation a_trust blind_host a_bundle cache_9).0
    ≡ ok (activated 7 (digest_of (canonical_bytes an_envelope)))
activation-unseen_example =
    activation-unseen a_trust blind_host a_bundle cache_9 (λ k. refl) refl a_bundle-admitted

from_cache-activation_example :
    (from_cache calm_host
      (codes "1.0")
      (codes "running")
      (codes "mounted")
      none
      none
      activated_cache).0
    ≡ record {
      agent_version = codes "1.0";
      service_state = codes "running";
      config_state = codes "active";
      drive_state = codes "mounted";
      active_bundle_version = some (to_decimal 7);
      last_successful_contact = none;
      diagnostic = none;
    }
from_cache-activation_example =
    from_cache-activation a_trust calm_host calm_host-IsCalm calm_host a_bundle empty_cache
      empty_cache-IsSound 7 (digest_of (canonical_bytes an_envelope)) activates (codes "1.0")
      (codes "running") (codes "mounted") none none
