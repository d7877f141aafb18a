-- ===== src/Drivers/SwitchPort.antt =====
-- apps/killswitch-controller/internal/drivers/switchport.go: enforcement at a managed switch, by a
-- webhook that is an interface here.
pub mod Guarded
use net_soldier.Prelude.{ℕ, Bool, Option, none, some, [], Text, codes, ltb, if◌then◌else◌}
use net_soldier.Net.Addr.{NetParser}
use net_soldier.Events.Action.{EnforcementAction}
use net_soldier.Drivers.{Driver}
use net_soldier.Drivers.Guard.{TargetGuard, Refusal, check}

-- Operation
pub data Operation : Type 0 where
  disable_port quarantine_vlan restore : Operation

pub record SwitchRequest : Type 0 where
  pub action_id : Text
  pub operation : Operation
  pub target_mac : Text
  pub target_ip : Text
  pub quarantine_vlan_id : ℕ

-- The webhook: what a request leaves, and its error, if any.
abbrev pub Webhook : Type 0 → Type 0
Webhook W = SwitchRequest → W → W × Option Text

module _ {W : Type 0} (net : NetParser) (call : Webhook W) (guard : Option TargetGuard)
    (vlan : ℕ) where
  request : Operation → ℕ → EnforcementAction → SwitchRequest
  request op id a = record {
    action_id = a.id;
    operation = op;
    target_mac = a.target_mac;
    target_ip = a.target_ip;
    quarantine_vlan_id = id;
  }

  -- Apply
  unfoldable pub apply : EnforcementAction → W → W × Option Text
  unfolding request
  apply a w = elim (check net guard a.target_mac a.target_ip) [
    | some refusal ↦ (w, some (codes "refusing to enforce"))
    | none ↦ call (request (if ltb 0 vlan then quarantine_vlan else disable_port) vlan a) w
  ]

  -- Revert
  unfoldable pub revert : EnforcementAction → W → W × Option Text
  unfolding request
  revert a w = call (request restore 0 a) w

  unfoldable pub switch_driver : Driver W
  switch_driver = record { apply = apply; revert = revert; name = codes "switch_acl" }
