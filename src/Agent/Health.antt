-- ===== src/Agent/Health.antt =====
-- crates/dlp-agent-core/src/health.rs: the agent's report of its own state.
pub mod Reports
use wdlp.Base.{ℕ, Option, none, some}
use wdlp.Base.Bytes.{Bytes, codes}
use wdlp.Base.Decimal.{to_decimal}
use wdlp.Base.Results.{Result, ok, err}
use wdlp.Agent.Cache.{CacheError, corrupt_pointer, missing_bundle, CachePointers}
use wdlp.Agent.Cache.Activation.{Host, Cache, read_pointers}

pub data RedactedDiagnostic : Type 0 where
  enrollment_denied credential_unavailable configuration_rejected : RedactedDiagnostic
  network_unavailable cache_corrupt session_host_launch_failed : RedactedDiagnostic
  drive_mount_failed drive_letter_unavailable session_drain_timeout : RedactedDiagnostic
  store_recovery_failed : RedactedDiagnostic

abbrev code : RedactedDiagnostic → Bytes
code enrollment_denied = codes "enrollment_denied"
code credential_unavailable = codes "credential_unavailable"
code configuration_rejected = codes "configuration_rejected"
code network_unavailable = codes "network_unavailable"
code cache_corrupt = codes "cache_corrupt"
code session_host_launch_failed = codes "session_host_launch_failed"
code drive_mount_failed = codes "drive_mount_failed"
code drive_letter_unavailable = codes "drive_letter_unavailable"
code session_drain_timeout = codes "session_drain_timeout"
code store_recovery_failed = codes "store_recovery_failed"

pub record HealthSnapshot : Type 0 where
  pub agent_version : Bytes
  pub service_state : Bytes
  pub config_state : Bytes
  pub drive_state : Bytes
  pub active_bundle_version : Option Bytes
  pub last_successful_contact : Option ℕ
  pub diagnostic : Option RedactedDiagnostic

abbrev not_mounted : Bytes → HealthSnapshot
not_mounted agent_version = record {
  agent_version = agent_version;
  service_state = codes "running";
  config_state = codes "unconfigured";
  drive_state = codes "not_mounted";
  active_bundle_version = none;
  last_successful_contact = none;
  diagnostic = none;
}

abbrev with_diagnostic : HealthSnapshot → RedactedDiagnostic → HealthSnapshot
with_diagnostic snapshot diagnostic = record snapshot { diagnostic = some diagnostic }

-- `current_version.map(|v| v.to_string())` and the state that goes with it
abbrev pub version_state : Option ℕ → Bytes × Option Bytes
version_state none = (codes "unconfigured", none)
version_state (some version) = (codes "active", some (to_decimal version))

abbrev pub error_state : CacheError → Bytes × Option Bytes
error_state corrupt_pointer = (codes "corrupt", none)
error_state missing_bundle = (codes "corrupt", none)
error_state _ = (codes "error", none)

abbrev pub pointers_state : Result CacheError CachePointers → Bytes × Option Bytes
pointers_state (ok pointers) = version_state pointers.current_version
pointers_state (err error) = error_state error

module _ (host : Host) where
  -- The pointers are read from the cache's directory, so the cache is a state.
  unfoldable pub from_cache :
      Bytes → Bytes → Bytes → Option ℕ → Option RedactedDiagnostic → Cache → HealthSnapshot × Cache
  from_cache agent_version service_state drive_state last_successful_contact diagnostic s =
      let (pointers, t) = read_pointers host s in
      let (config_state, active_bundle_version) = pointers_state pointers in
      (
        record {
          agent_version = agent_version;
          service_state = service_state;
          config_state = config_state;
          drive_state = drive_state;
          active_bundle_version = active_bundle_version;
          last_successful_contact = last_successful_contact;
          diagnostic = diagnostic;
        },
        t,
      )
