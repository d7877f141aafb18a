-- ===== src/Drivers/ArpIsolate.antt =====
-- apps/killswitch-controller/internal/drivers/arpisolate.go: isolation by ARP replies. What the kernel
-- does is an interface on a state W. An address is its bytes; `parse_ipv4` is net.ParseIP and To4.
-- A poison loop is the entry of `active` with its target, and one tick of it is a step.
mod Wire
pub mod Frames
pub mod Lifetime
pub mod Refusals
pub mod Gateway
pub mod Setup
unfoldable pub use Wire.*
use net_soldier.Prelude.{
  ℕ, ◌+◌, ◌-◌, ◌*◌, Bool, true, false, not, ◌&&◌, ◌||◌, Option, none, some, List, [], ◌∷◌, Text,
  ltb, ◌==◌, length, str_eq, Assoc, insert, delete, if◌then◌else◌, ◌⊎◌, inl, inr,
}
use net_soldier.Net.Addr.{NetParser}
use net_soldier.Net.Mac.{parse_mac, mac_text}
use net_soldier.Events.Action.{EnforcementAction}
use net_soldier.Drivers.Guard.{TargetGuard, Refusal, check, protect_mac}

-- /proc/net/arp, of which none is a failed read; whether a raw socket opens; and Sendto, whether it
-- sends.
pub record Kernel (W : Type 0) : Type 0 where
  pub read_arp : W → Option Text
  pub open_socket : W → Bool
  pub send : Bytes → W → Bool × W

-- Times are nanoseconds.
abbrev pub gateway_mac_ttl : ℕ
gateway_mac_ttl = 5 * 60 * 1000000000

pub record ArpDriver (W : Type 0) : Type 0 where
  pub hardware_addr : Bytes
  pub gateway_ip : Bytes
  pub guard : Option TargetGuard
  pub gateway_mac : Bytes
  pub gateway_at : ℕ
  pub active : Assoc (Bytes × Bytes)
  pub outside : W

pub data ArpError : Type 0 where
  gateway_required no_interface no_hardware_addr unresolved no_socket not_ipv4 : ArpError
  invalid_ip invalid_mac gateway_is_target gateway_mac_is_target own_interface : ArpError
  poison_failed restore_failed : ArpError
  refused : Refusal → ArpError

module _ {W : Type 0} (kernel : Kernel W) where
  -- sendARP, and whether it succeeded.
  unfoldable pub send_arp : Bytes → Bytes → Bytes → Bytes → ArpDriver W → Bool × ArpDriver W
  send_arp dst_mac sender_ip sender_mac target_ip d =
      let sent =
        kernel.send (frame d.hardware_addr dst_mac sender_ip sender_mac target_ip) d.outside in
      if length sender_ip == 4
        && length target_ip == 4
        && length dst_mac == 6
        && length sender_mac == 6
      then (sent.0, record d { outside = sent.1 })
      else (false, d)

  -- sendPoison
  unfoldable pub send_poison : Bytes → Bytes → Bytes → ArpDriver W → Bool × ArpDriver W
  send_poison target_ip target_mac gateway_mac d =
      let first = send_arp target_mac d.gateway_ip d.hardware_addr target_ip d in
      let second = send_arp gateway_mac target_ip d.hardware_addr d.gateway_ip first.1 in
      if first.0 then second else first

  -- gatewayHardwareAddr
  has_address : ArpDriver W → Bool
  has_address d = length d.gateway_mac == 6

  learned : ℕ → Bytes → ArpDriver W → ArpDriver W
  learned now mac d = record d {
    guard =
        if str_eq mac d.gateway_mac
        then d.guard
        else elim d.guard [ none ↦ none | some g ↦ some (protect_mac (mac_text mac) g) ];
    gateway_mac = mac;
    gateway_at = now;
  }

  resolved : ℕ → Option Bytes → ArpDriver W → Option Bytes × ArpDriver W
  unfolding has_address learned
  resolved now none d = (if has_address d then some d.gateway_mac else none, d)
  resolved now (some mac) d = (some mac, learned now mac d)

  unfoldable pub gateway_hardware_addr : ℕ → ArpDriver W → Option Bytes × ArpDriver W
  unfolding has_address resolved
  gateway_hardware_addr now d =
      if ltb (now - d.gateway_at) gateway_mac_ttl && has_address d
      then (some d.gateway_mac, d)
      else resolved now (resolve_from_proc_arp (kernel.read_arp d.outside) (ip_text d.gateway_ip)) d

  -- One tick of a poison loop, with the count of its failures in a row.
  unfoldable pub poison_tick : ℕ → Bytes → Bytes → ℕ → ArpDriver W → ℕ × ArpDriver W
  poison_tick now target_ip target_mac failures d =
      let found = gateway_hardware_addr now d in
      elim found.0 [
        | none ↦ (failures, found.1)
        | some gateway_mac ↦
            let sent = send_poison target_ip target_mac gateway_mac found.1 in
            (if sent.0 then 0 else failures + 1, sent.1)
      ]

module _ {W : Type 0} (net : NetParser) (parse_ipv4 : Text → Option Bytes) (kernel : Kernel W) where
  -- parseTarget
  six_bytes : Bytes → Option Bytes → ArpError ⊎ (Bytes × Bytes)
  six_bytes ip none = inl invalid_mac
  six_bytes ip (some mac) = if length mac == 6 then inr (ip, mac) else inl invalid_mac

  unfoldable pub parse_target : EnforcementAction → ArpError ⊎ (Bytes × Bytes)
  unfolding six_bytes
  parse_target a = elim (parse_ipv4 a.target_ip) [
    | none ↦ inl invalid_ip
    | some ip ↦ six_bytes ip (parse_mac a.target_mac)
  ]

  -- The guard's answer, and the three comparisons of Apply.
  unfoldable pub refusal_of : EnforcementAction → Bytes → Bytes → ArpDriver W → Option ArpError
  refusal_of a ip mac d = elim (check net d.guard a.target_mac a.target_ip) [
    | some r ↦ some (refused r)
    | none ↦
        if str_eq ip d.gateway_ip
        then some gateway_is_target
        else if str_eq mac d.gateway_mac
        then some gateway_mac_is_target
        else if str_eq mac d.hardware_addr
        then some own_interface
        else none
  ]

  -- The end of Apply, once the first pair of replies was tried: the loop starts, in place of an older
  -- one of the action.
  started : Text → Bytes → Bytes → Bool × ArpDriver W → Option ArpError × ArpDriver W
  started id ip mac (false, d) = (some poison_failed, d)
  started id ip mac (true, d) = (none, record d { active = insert id (ip, mac) d.active })

  poisoned : Text → Bytes → Bytes → Option Bytes × ArpDriver W → Option ArpError × ArpDriver W
  unfolding started
  poisoned id ip mac (none, d) = (some unresolved, d)
  poisoned id ip mac (some gateway_mac, d) =
      if kernel.open_socket d.outside
      then started id ip mac (send_poison kernel ip mac gateway_mac d)
      else (some no_socket, d)

  apply_to :
      ℕ
      → EnforcementAction
      → ArpError ⊎ (Bytes × Bytes)
      → ArpDriver W
      → Option ArpError × ArpDriver W
  unfolding poisoned
  apply_to now a (inl e) d = (some e, d)
  apply_to now a (inr (ip, mac)) d = elim (refusal_of a ip mac d) [
    | some e ↦ (some e, d)
    | none ↦ poisoned a.id ip mac (gateway_hardware_addr kernel now d)
  ]

  -- Apply
  unfoldable pub apply : ℕ → EnforcementAction → ArpDriver W → Option ArpError × ArpDriver W
  unfolding apply_to
  apply now a d = apply_to now a (parse_target a) d

  -- One round of Revert: whether a send failed.
  restore_round : Bytes → Bytes → Bytes → ArpDriver W → Bool × ArpDriver W
  restore_round ip mac gateway_mac d =
      let first = send_arp kernel mac d.gateway_ip gateway_mac ip d in
      let second = send_arp kernel gateway_mac ip mac d.gateway_ip first.1 in
      (not first.0 || not second.0, second.1)

  -- The rounds that are left; `dones` tells of each wait whether the context ended in it.
  restore_rounds :
      Bytes → Bytes → Bytes → List Bool → Bool → ArpDriver W → Option ArpError × ArpDriver W
  unfolding restore_round
  restore_rounds ip mac gateway_mac [] failed d =
      let r = restore_round ip mac gateway_mac d in
      (if failed || r.0 then some restore_failed else none, r.1)
  restore_rounds ip mac gateway_mac (done ∷ dones) failed d =
      let r = restore_round ip mac gateway_mac d in
      let rest = restore_rounds ip mac gateway_mac dones (failed || r.0) r.1 in
      if done then (none, r.1) else rest

  restored :
      Bool → Bool → Bytes → Bytes → Option Bytes × ArpDriver W → Option ArpError × ArpDriver W
  unfolding restore_rounds
  restored done1 done2 ip mac (none, d) = (some unresolved, d)
  restored done1 done2 ip mac (some gateway_mac, d) =
      if kernel.open_socket d.outside
      then restore_rounds ip mac gateway_mac (done1 ∷ done2 ∷ []) false d
      else (some no_socket, d)

  revert_of :
      ℕ → Bool → Bool → ArpError ⊎ (Bytes × Bytes) → ArpDriver W → Option ArpError × ArpDriver W
  unfolding restored
  revert_of now done1 done2 (inl e) d = (none, d)
  revert_of now done1 done2 (inr (ip, mac)) d =
      restored done1 done2 ip mac (gateway_hardware_addr kernel now d)

  -- Revert; whether the context ended in its first and in its second wait.
  unfoldable pub revert :
      ℕ → Bool → Bool → EnforcementAction → ArpDriver W → Option ArpError × ArpDriver W
  unfolding revert_of
  revert now done1 done2 a d =
      revert_of now done1 done2 (parse_target a) (record d { active = delete a.id d.active })
