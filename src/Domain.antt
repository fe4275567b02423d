-- ===== src/Domain.antt =====
-- crates/dlp-domain/src/lib.rs: typed identifiers, policy inputs, actions and decisions.
pub mod Laws
use wdlp.Base.{
  ℕ, Bool, true, false, not, ◌&&◌, ◌||◌, List, [], ◌∷◌, ◌++◌, length, all, any, ltb, ◌==◌, is_empty,
  if◌then◌else◌, Option, none, some,
}
use wdlp.Base.Bytes.{Bytes, codes, bytes_eq, starts_with}
use wdlp.Base.Decimal.{to_decimal}
use wdlp.Base.Utf8.{between}
use wdlp.Base.Results.{Result, ok, err}

pub data DomainErrorKind : Type 0 where
  empty_value invalid_identifier invalid_policy_input : DomainErrorKind

abbrev pub is_ascii_alphanumeric : ℕ → Bool
is_ascii_alphanumeric b = between b'0' b'9' b || between b'A' b'Z' b || between b'a' b'z' b

abbrev pub id_byte : Bool → ℕ → Bool
id_byte allow_dot b =
    is_ascii_alphanumeric b || (b == b'-' || b == b'_') || (allow_dot && b == b'.')

-- `value.ends_with(b)` for one byte, and `value.contains("..")`
abbrev pub ends_with : ℕ → Bytes → Bool
ends_with b [] = false
ends_with b (x ∷ []) = x == b
ends_with b (x ∷ y ∷ r) = ends_with b (y ∷ r)

abbrev pub contains_pair : ℕ → Bytes → Bool
contains_pair b [] = false
contains_pair b (x ∷ []) = false
contains_pair b (x ∷ y ∷ r) = (x == b && y == b) || contains_pair b (y ∷ r)

abbrev pub head_is : ℕ → Bytes → Bool
head_is b [] = false
head_is b (x ∷ r) = x == b

abbrev pub bad_identifier : Bool → Bytes → Bool
bad_identifier allow_dot value =
    ltb 128 (length value)
    || not (all (id_byte allow_dot) value)
    || (allow_dot && (head_is b'.' value || ends_with b'.' value || contains_pair b'.' value))

-- `parse` of the types that `typed_identifier!` declares: `allow_dot` is true for `DeviceId` alone.
unfoldable pub parse_identifier : Bool → Bytes → Result DomainErrorKind Bytes
parse_identifier allow_dot value =
    if is_empty value
    then err empty_value
    else if bad_identifier allow_dot value
    then err invalid_identifier
    else ok value

abbrev pub parse_device_id : Bytes → Result DomainErrorKind Bytes
parse_device_id = parse_identifier true

abbrev pub parse_opaque_id : Bytes → Result DomainErrorKind Bytes
parse_opaque_id = parse_identifier false

pub record PolicyInput : Type 0 where
  pub file_name : Bytes
  pub extension : Bytes
  pub path : Bytes
  pub owner : Bytes
  pub size_bytes : ℕ

unfoldable pub new_policy_input :
    Bytes → Bytes → Bytes → Bytes → ℕ → Result DomainErrorKind PolicyInput
new_policy_input file_name extension path owner size_bytes =
    if is_empty file_name || is_empty extension || is_empty path
    then err invalid_policy_input
    else ok (record {
      file_name = file_name;
      extension = extension;
      path = path;
      owner = owner;
      size_bytes = size_bytes;
    })

pub data EnforcementAction : Type 0 where
  allow block allow_and_audit warn require_justification : EnforcementAction

abbrev pub restrictiveness : EnforcementAction → ℕ
restrictiveness allow = 0
restrictiveness allow_and_audit = 1
restrictiveness warn = 2
restrictiveness require_justification = 3
restrictiveness block = 4

abbrev pub action_str : EnforcementAction → Bytes
action_str allow = codes "allow"
action_str block = codes "block"
action_str allow_and_audit = codes "allow_and_audit"
action_str warn = codes "warn"
action_str require_justification = codes "require_justification"

pub data DecisionReason : Type 0 where
  matched_rule equal_priority_conflict default_action empty_policy : DecisionReason

abbrev pub reason_str : DecisionReason → Bytes
reason_str matched_rule = codes "matched_rule"
reason_str equal_priority_conflict = codes "equal_priority_conflict"
reason_str default_action = codes "default_action"
reason_str empty_policy = codes "empty_policy"

pub record PolicyDecision : Type 0 where
  pub action : EnforcementAction
  pub reason : DecisionReason
  pub rule_id : Option Bytes

-- `format!`: the fields are written between their names as they are, without escapes.
unfoldable pub input_canonical_bytes : PolicyInput → Bytes
input_canonical_bytes input =
    codes "file_name="
    ++ input.file_name
    ++ codes ";extension="
    ++ input.extension
    ++ codes ";path="
    ++ input.path
    ++ codes ";owner="
    ++ input.owner
    ++ codes ";size_bytes="
    ++ to_decimal input.size_bytes

abbrev pub rule_or_empty : Option Bytes → Bytes
rule_or_empty none = []
rule_or_empty (some rule_id) = rule_id

unfoldable pub decision_canonical_bytes : PolicyDecision → Bytes
decision_canonical_bytes decision =
    codes "action="
    ++ action_str decision.action
    ++ codes ";reason="
    ++ reason_str decision.reason
    ++ codes ";rule_id="
    ++ rule_or_empty decision.rule_id
