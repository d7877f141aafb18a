-- ===== src/Drivers/SwitchPort/Guarded.antt =====
-- The switch driver never acts on a protected device.
use net_soldier.Prelude.{ℕ, ◌≡◌, Bool, some, [], ◌∷◌, codes}
use net_soldier.Net.Addr.{NetParser}
use net_soldier.Net.Mac.Spelling.{AreBytes}
use net_soldier.Events.Action.{EnforcementAction}
use net_soldier.Policy.Allowlist.Macs.{Style, spell}
use net_soldier.Drivers.Guard.{protect_mac, TargetGuard}
use net_soldier.Drivers.Guard.Spelling.{check-protect_mac}
use net_soldier.Drivers.SwitchPort.{Webhook, apply}

-- Once six bytes are protected in any spelling, Apply for an action that aims at them in any
-- spelling reports an error and leaves the network as it is, whatever the webhook would do.
pub apply_guarded :
    {W : Type 0} (net : NetParser) (call : Webhook W) (vlan : ℕ) (g : TargetGuard)
    (b0 b1 b2 b3 b4 b5 : ℕ) (style style' : Style) (upper upper' : Bool) (a : EnforcementAction)
    (w : W)
    → let six = b0 ∷ b1 ∷ b2 ∷ b3 ∷ b4 ∷ b5 ∷ [] in
      AreBytes six
      → a.target_mac ≡ spell style' upper' six
      → apply net call (some (protect_mac (spell style upper six) g)) vlan a w
        ≡ (w, some (codes "refusing to enforce"))
unfolding apply
apply_guarded net call vlan g b0 b1 b2 b3 b4 b5 style style' upper upper' a w h aimed =
    rw aimed (
      rw (check-protect_mac net b0 b1 b2 b3 b4 b5 style style' upper upper' a.target_ip g h, apply))
