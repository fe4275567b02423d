-- ===== src/Protocol.antt =====
-- crates/dlp-protocol/src/lib.rs: the versioned data-transfer contracts. Their fields are checked
-- here; `Envelope` holds the configuration envelope and its signed bytes.
pub mod Envelope
use wdlp.Base.{
  ℕ, Bool, true, false, not, ◌&&◌, ◌||◌, length, ltb, leb, ◌==◌, is_empty, if◌then◌else◌, String,
}
use wdlp.Base.Bytes.{Bytes}
use wdlp.Base.Results.{Result, ok, err, ◌>>=◌, ◌>>◌, refuse}
use wdlp.Base.Utf8.{between}

abbrev pub api_version_v1 : ℕ
api_version_v1 = 1

abbrev pub configuration_schema_version_v1 : ℕ
configuration_schema_version_v1 = 1

pub data ProtocolError : Type 0 where
  unsupported_version : String → ℕ → ProtocolError
  invalid_field : String → ProtocolError

abbrev pub Checked : Type 0 → Type 0
Checked A = Result ProtocolError A

abbrev pub require_v1 : String → ℕ → Checked (Unit {0})
require_v1 shape version =
    if version == api_version_v1 then ok tt else err (unsupported_version shape version)

abbrev pub require_nonempty : String → Bytes → Checked (Unit {0})
require_nonempty field value =
    if is_empty value || ltb 65536 (length value) then err (invalid_field field) else ok tt

-- `first?; second`
abbrev pub and_then : {A : Type 0} → Checked (Unit {0}) → Checked A → Checked A
and_then (ok _) second = second
and_then (err e) second = err e

-- A `DeviceId` is the text that `Domain.parse_device_id` accepted.
pub record EnrollmentRequestV1 : Type 0 where
  pub version : ℕ
  pub device_id : Bytes
  pub enrollment_token : Bytes

unfoldable pub new_enrollment_request : ℕ → Bytes → Bytes → Checked EnrollmentRequestV1
new_enrollment_request version device_id enrollment_token = do
  require_v1 "EnrollmentRequestV1" version
  require_nonempty "enrollment token" enrollment_token
  ok (record { version = version; device_id = device_id; enrollment_token = enrollment_token })

pub record ProvisionDeviceRequestV1 : Type 0 where
  pub version : ℕ
  pub device_id : Bytes
  pub fingerprint_version : ℕ
  pub fingerprint_digest : Bytes
  pub ad_object_guid : Bytes
  pub ad_object_sid : Bytes
  pub ad_dns_name : Bytes
  pub ad_domain : Bytes
  pub preferred_drive_letter : ℕ
  pub recovery : Bool

abbrev pub bad_identity : ℕ → Bytes → Bytes → ℕ → Bool
bad_identity fingerprint_version ad_object_guid ad_object_sid preferred_drive_letter =
    not (fingerprint_version == 1)
    || not (length ad_object_guid == 16)
    || not (between 8 68 (length ad_object_sid))
    || not (between b'A' b'Z' preferred_drive_letter)

unfoldable pub new_provision_device_request :
    ℕ → Bytes → ℕ → Bytes → Bytes → Bytes → Bytes → Bytes → ℕ → Checked ProvisionDeviceRequestV1
new_provision_device_request version device_id fingerprint_version fingerprint_digest guid sid
      dns_name domain letter =
    do
      require_v1 "ProvisionDeviceRequestV1" version
      require_nonempty "device identity" device_id
      require_nonempty "AD DNS name" dns_name
      require_nonempty "AD domain" domain
      refuse (bad_identity fingerprint_version guid sid letter)
          (invalid_field "trusted provisioning identity")
      ok (record {
        version = version;
        device_id = device_id;
        fingerprint_version = fingerprint_version;
        fingerprint_digest = fingerprint_digest;
        ad_object_guid = guid;
        ad_object_sid = sid;
        ad_dns_name = dns_name;
        ad_domain = domain;
        preferred_drive_letter = letter;
        recovery = false;
      })

abbrev pub authorize_recovery : ProvisionDeviceRequestV1 → ProvisionDeviceRequestV1
authorize_recovery r = record r { recovery = true }

pub record ProvisionDeviceResponseV1 : Type 0 where
  pub version : ℕ
  pub device_id : Bytes
  pub enrollment_token : Bytes

unfoldable pub new_provision_device_response : ℕ → Bytes → Bytes → Checked ProvisionDeviceResponseV1
new_provision_device_response version device_id enrollment_token = do
  require_v1 "ProvisionDeviceResponseV1" version
  require_nonempty "device identity" device_id
  require_nonempty "enrollment token" enrollment_token
  ok (record { version = version; device_id = device_id; enrollment_token = enrollment_token })

pub record EnrollmentResponseV1 : Type 0 where
  pub version : ℕ
  pub device_id : Bytes
  pub credential_chain : Bytes

unfoldable pub new_enrollment_response : ℕ → Bytes → Bytes → Checked EnrollmentResponseV1
new_enrollment_response version device_id credential_chain = do
  require_v1 "EnrollmentResponseV1" version
  require_nonempty "credential chain" credential_chain
  ok (record { version = version; device_id = device_id; credential_chain = credential_chain })

pub record HealthReportV1 : Type 0 where
  pub version : ℕ
  pub device_id : Bytes
  pub status : Bytes

unfoldable pub new_health_report : ℕ → Bytes → Bytes → Checked HealthReportV1
new_health_report version device_id status = do
  require_v1 "HealthReportV1" version
  require_nonempty "health status" status
  ok (record { version = version; device_id = device_id; status = status })
