-- ===== src/Events/Action.antt =====
-- libs/events/enforcement.go: an enforcement action and its lifecycle. The store writes only the
-- six state constants into `State`, so a state is a data type; action types reach the program from
-- its environment and stay texts.
use net_soldier.Prelude.{ℕ, Bool, Option, Text, codes, ℤ}

pub data State : Type 0 where
  pending approved active reverted rejected failed : State

pub State-discrete : Discrete State
State-discrete = hlevel

abbrev pub action_dns_sinkhole : Text
action_dns_sinkhole = codes "dns_sinkhole"

abbrev pub action_arp_isolate : Text
action_arp_isolate = codes "arp_isolate"

abbrev pub action_switch_acl : Text
action_switch_acl = codes "switch_acl"

-- Times are nanoseconds; a deadline may wrap below zero, so it is an integer.
pub record EnforcementAction : Type 0 where
  pub schema_version : Text
  pub id : Text
  pub timestamp : ℕ
  pub detection_id : Text
  pub action_type : Text
  pub state : State
  pub target_mac : Text
  pub target_ip : Text
  pub blocked_domain : Text
  pub policy_rule : Text
  pub auto_approved : Bool
  pub ttl_seconds : ℤ
  pub expires_at : Option ℤ
  pub reverted_at : Option ℕ
  pub approved_by : Text
  pub reason : Text
  pub failure_reason : Text

-- EnforcementSchemaVersion
abbrev pub enforcement_schema_version : Text
enforcement_schema_version = codes "1.0"
