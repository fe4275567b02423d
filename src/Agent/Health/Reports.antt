-- ===== src/Agent/Health/Reports.antt =====
-- What `from_cache` of crates/dlp-agent-core/src/health.rs reports of the cache.
use wdlp.Base.{ℕ, ◌≡◌, refl, ◌∙◌, Option, some}
use wdlp.Base.Bytes.{Bytes, codes}
use wdlp.Base.Decimal.{to_decimal}
use wdlp.Base.Results.{ok}
use wdlp.Agent.Cache.Activation.{Host, Cache, ActivationOutcome, activated}
use wdlp.Agent.Cache.Activation.Admission.{Trust}
use wdlp.Agent.Cache.Activation.Invariant.{IsSound}
use wdlp.Agent.Cache.Activation.Loading.{IsCalm, read_pointers-calm}
use wdlp.Agent.Cache.Activation.Outcomes.{activation-ok}
use wdlp.Agent.Cache.Activation.Soundness.{activation}
use wdlp.Agent.Health.{RedactedDiagnostic, from_cache}

same_version :
    {v w : ℕ} {d e : Bytes} → Path ActivationOutcome (activated v d) (activated w e) → v ≡ w
same_version h = cc h

module _ (trust : Trust) (host : Host) (calm : IsCalm host) where
  -- After an activation of a sound cache that succeeds, on whatever host, a report made where no call
  -- fails says that the configuration is active, with the version just activated in decimal, and
  -- passes on the rest of what it is given.
  pub from_cache-activation :
      (before : Host) (bytes : Bytes) (s : Cache)
      → IsSound trust s
      → (version : ℕ) (digest : Bytes)
      → (activation trust before bytes s).0 ≡ ok (activated version digest)
      → (agent_version service_state drive_state : Bytes) (contact : Option ℕ)
        (diagnostic : Option RedactedDiagnostic)
      → (from_cache host agent_version service_state drive_state contact diagnostic
          (activation trust before bytes s).1).0
        ≡ record {
          agent_version = agent_version;
          service_state = service_state;
          config_state = codes "active";
          drive_state = drive_state;
          active_bundle_version = some (to_decimal version);
          last_successful_contact = contact;
          diagnostic = diagnostic;
        }
  unfolding from_cache
  from_cache-activation before bytes s is version digest succeeded agent_version service_state
        drive_state contact diagnostic =
      let done = activation-ok trust before bytes s is succeeded in
      let t : Cache = (activation trust before bytes s).1 in
      rw (read_pointers-calm trust host calm t ∙ done.selected, same_version done.reported) refl
