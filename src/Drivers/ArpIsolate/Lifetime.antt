-- ===== src/Drivers/ArpIsolate/Lifetime.antt =====
-- What the life of an ARP driver keeps of its guard.
use net_soldier.Prelude.{
  if◌then◌else◌, ℕ, ◌≡◌, arith, Bool, true, false, Option, none, some, List, [], ◌∷◌, Text, str_eq,
  Bool-cases, ◌⊎◌, inl, inr, Option-cases,
}
use net_soldier.Net.Addr.{NetParser}
use net_soldier.Net.Mac.{mac_text}
use net_soldier.Events.Action.{EnforcementAction}
use net_soldier.Drivers.Guard.{TargetGuard, protect_mac, guards_mac}
use net_soldier.Drivers.Guard.Growth.{guards_after}
use net_soldier.Drivers.ArpIsolate.{
  Bytes, Kernel, ArpDriver, ArpError, no_socket, send_arp, send_poison, gateway_hardware_addr,
  resolved, learned, poison_tick, refusal_of, parse_target, started, poisoned, apply_to, apply,
  restore_round, restore_rounds, restored, revert_of, revert,
}

-- What happens to a driver, in any order: its calls, the ticks of its loops, and what the network does.
pub data Later {W : Type 0} (net : NetParser) (parse_ipv4 : Text → Option Bytes) (kernel : Kernel W)
    (d : ArpDriver W) : ArpDriver W → Type 0 where
  at_once : Later net parse_ipv4 kernel d d
  applied :
      {e : ArpDriver W} (now : ℕ) (a : EnforcementAction)
      → Later net parse_ipv4 kernel d e
      → Later net parse_ipv4 kernel d (apply net parse_ipv4 kernel now a e).1
  reverted :
      {e : ArpDriver W} (now : ℕ) (done1 done2 : Bool) (a : EnforcementAction)
      → Later net parse_ipv4 kernel d e
      → Later net parse_ipv4 kernel d (revert net parse_ipv4 kernel now done1 done2 a e).1
  ticked :
      {e : ArpDriver W} (now : ℕ) (ip mac : Bytes) (failures : ℕ)
      → Later net parse_ipv4 kernel d e
      → Later net parse_ipv4 kernel d (poison_tick kernel now ip mac failures e).1
  network_changed :
      {e : ArpDriver W} (w : W)
      → Later net parse_ipv4 kernel d e
      → Later net parse_ipv4 kernel d (record e { outside = w })

-- Whether the guard, if there is one, protects a hardware address.
unfoldable pub guarding : Text → Option TargetGuard → Bool
guarding mac none = false
guarding mac (some g) = guards_mac mac g

module _ {W : Type 0} (kernel : Kernel W) (x : Text) where
  -- That a driver's guard protects the address.
  unfoldable pub Guards : ArpDriver W → Type 0
  unfolding guarding
  Guards d = guarding x d.guard ≡ true

  send_arp-guard :
      (dst sip smac tip : Bytes) (d : ArpDriver W)
      → (send_arp kernel dst sip smac tip d).1.guard ≡ d.guard
  unfolding send_arp
  send_arp-guard dst sip smac tip d = ground arith

  send_poison-guard :
      (ip mac gw : Bytes) (d : ArpDriver W) → (send_poison kernel ip mac gw d).1.guard ≡ d.guard
  unfolding send_poison
  send_poison-guard ip mac gw d =
      let first = send_arp kernel mac d.gateway_ip d.hardware_addr ip d in
      ground (
        arith,
        send_arp-guard mac d.gateway_ip d.hardware_addr ip d,
        send_arp-guard gw ip d.hardware_addr d.gateway_ip first.1,
      )

  same-Guards : (d e : ArpDriver W) → e.guard ≡ d.guard → Guards d → Guards e
  unfolding Guards
  same-Guards d e same h = rw same h

  guarding_more :
      (mac : Bytes) (o : Option TargetGuard)
      → guarding x o ≡ true
      → guarding x (elim o [ none ↦ none | some g ↦ some (protect_mac (mac_text mac) g) ]) ≡ true
  unfolding guarding
  guarding_more mac none h = h
  guarding_more mac (some g) h = guards_after x (mac_text mac) g h

  learned-Guards :
      (now : ℕ) (mac : Bytes) (d : ArpDriver W) → Guards d → Guards (learned kernel now mac d)
  unfolding Guards learned guarding
  learned-Guards now mac d h = elim (Bool-cases (str_eq mac d.gateway_mac)) [
    | inl same ↦ rw (learned, same) h
    | inr other ↦ rw (learned, other) (guarding_more mac d.guard h)
  ]

  resolved-Guards :
      (now : ℕ) (o : Option Bytes) (d : ArpDriver W) → Guards d → Guards (resolved kernel now o d).1
  unfolding resolved
  resolved-Guards now none d h = h
  resolved-Guards now (some mac) d h = learned-Guards now mac d h

  if-Guards :
      {A : Type 0} (b : Bool) (p q : A × ArpDriver W)
      → Guards p.1
      → Guards q.1
      → Guards (if b then p else q).1
  if-Guards true p q h k = h
  if-Guards false p q h k = k

  gateway-Guards :
      (now : ℕ) (d : ArpDriver W) → Guards d → Guards (gateway_hardware_addr kernel now d).1
  unfolding gateway_hardware_addr
  gateway-Guards now d h = if-Guards _ _ _ h (resolved-Guards now _ d h)

  poison_tick-Guards :
      (now : ℕ) (ip mac : Bytes) (failures : ℕ) (d : ArpDriver W)
      → Guards d
      → Guards (poison_tick kernel now ip mac failures d).1
  unfolding poison_tick
  poison_tick-Guards now ip mac failures d h =
      let found = gateway_hardware_addr kernel now d in
      let known = gateway-Guards now d h in
      elim (Option-cases found.0) [
        | inl missing ↦ rw (poison_tick, missing) known
        | inr (gw, resolved_to) ↦
            rw (poison_tick, resolved_to)
              (same-Guards found.1 _ (send_poison-guard ip mac gw found.1) known)
      ]

module _ {W : Type 0} (net : NetParser) (parse_ipv4 : Text → Option Bytes) (kernel : Kernel W)
    (x : Text) where
  started-Guards :
      (id : Text) (ip mac : Bytes) (p : Bool × ArpDriver W)
      → Guards kernel x p.1
      → Guards kernel x (started net parse_ipv4 kernel id ip mac p).1
  unfolding started Guards
  started-Guards id ip mac (true, d) h = h
  started-Guards id ip mac (false, d) h = h

  poisoned-Guards :
      (id : Text) (ip mac : Bytes) (p : Option Bytes × ArpDriver W)
      → Guards kernel x p.1
      → Guards kernel x (poisoned net parse_ipv4 kernel id ip mac p).1
  unfolding poisoned
  poisoned-Guards id ip mac (none, d) h = h
  poisoned-Guards id ip mac (some gw, d) h =
      let sent = send_poison kernel ip mac gw d in
      let kept = same-Guards kernel x d sent.1 (send_poison-guard kernel x ip mac gw d) h in
      if-Guards kernel x (kernel.open_socket d.outside)
        (started net parse_ipv4 kernel id ip mac sent) (some no_socket, d)
        (started-Guards id ip mac sent kept) h

  apply_to-Guards :
      (now : ℕ) (a : EnforcementAction) (t : ArpError ⊎ (Bytes × Bytes)) (d : ArpDriver W)
      → Guards kernel x d
      → Guards kernel x (apply_to net parse_ipv4 kernel now a t d).1
  unfolding apply_to
  apply_to-Guards now a (inl e) d h = h
  apply_to-Guards now a (inr (ip, mac)) d h =
      elim (Option-cases (refusal_of net parse_ipv4 kernel a ip mac d)) [
        | inr (e, no_target) ↦ rw (apply_to, no_target) h
        | inl target ↦
            rw (apply_to, target)
              (poisoned-Guards a.id ip mac (gateway_hardware_addr kernel now d)
                (gateway-Guards kernel x now d h))
      ]

  restore_round-Guards :
      (ip mac gw : Bytes) (d : ArpDriver W)
      → Guards kernel x d
      → Guards kernel x (restore_round net parse_ipv4 kernel ip mac gw d).1
  unfolding restore_round
  restore_round-Guards ip mac gw d h =
      let first = send_arp kernel mac d.gateway_ip gw ip d in
      same-Guards kernel x first.1 _ (send_arp-guard kernel x gw ip mac d.gateway_ip first.1)
        (same-Guards kernel x d _ (send_arp-guard kernel x mac d.gateway_ip gw ip d) h)

  restore_rounds-Guards :
      (ip mac gw : Bytes) (dones : List Bool) (failed : Bool) (d : ArpDriver W)
      → Guards kernel x d
      → Guards kernel x (restore_rounds net parse_ipv4 kernel ip mac gw dones failed d).1
  unfolding restore_rounds
  restore_rounds-Guards ip mac gw [] failed d h = restore_round-Guards ip mac gw d h
  restore_rounds-Guards ip mac gw (done ∷ dones) failed d h =
      let once = restore_round-Guards ip mac gw d h in
      if-Guards kernel x done _ _ once (restore_rounds-Guards ip mac gw dones _ _ once)

  restored-Guards :
      (done1 done2 : Bool) (ip mac : Bytes) (p : Option Bytes × ArpDriver W)
      → Guards kernel x p.1
      → Guards kernel x (restored net parse_ipv4 kernel done1 done2 ip mac p).1
  unfolding restored
  restored-Guards done1 done2 ip mac (none, d) h = h
  restored-Guards done1 done2 ip mac (some gw, d) h =
      let dones = done1 ∷ done2 ∷ [] in
      if-Guards kernel x (kernel.open_socket d.outside)
        (restore_rounds net parse_ipv4 kernel ip mac gw dones false d) (some no_socket, d)
        (restore_rounds-Guards ip mac gw dones false d h) h

  revert_of-Guards :
      (now : ℕ) (done1 done2 : Bool) (t : ArpError ⊎ (Bytes × Bytes)) (d : ArpDriver W)
      → Guards kernel x d
      → Guards kernel x (revert_of net parse_ipv4 kernel now done1 done2 t d).1
  unfolding revert_of
  revert_of-Guards now done1 done2 (inl e) d h = h
  revert_of-Guards now done1 done2 (inr (ip, mac)) d h =
      restored-Guards done1 done2 ip mac _ (gateway-Guards kernel x now d h)

  -- What the guard protects stays protected.
  pub Later-Guards :
      {d e : ArpDriver W} → Later net parse_ipv4 kernel d e → Guards kernel x d → Guards kernel x e
  unfolding apply revert Guards
  Later-Guards at_once h = h
  Later-Guards (applied {e} now a l) h =
      apply_to-Guards now a (parse_target net parse_ipv4 kernel a) e (Later-Guards l h)
  Later-Guards (reverted {e} now done1 done2 a l) h =
      revert_of-Guards now done1 done2 _ _ (Later-Guards l h)
  Later-Guards (ticked {e} now ip mac failures l) h =
      poison_tick-Guards kernel x now ip mac failures e (Later-Guards l h)
  Later-Guards (network_changed w l) h = Later-Guards l h
