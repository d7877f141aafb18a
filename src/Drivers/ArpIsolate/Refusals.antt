-- ===== src/Drivers/ArpIsolate/Refusals.antt =====
-- What Apply and Revert do to the poison loops, and whom Apply never isolates.
use net_soldier.Prelude.{
  ℕ, ◌≡◌, ◌≢◌, refl, ap, ◌∙◌, arith, Bool, true, false, Option, none, some, List, [], ◌∷◌, Text,
  str_eq, str_eq_refl, Assoc, lookup, insert, delete, lookup-insert, lookup-delete, Bool-cases,
  Option-cases, ◌⊎◌, inl, inr,
}
use net_soldier.Net.Addr.{NetParser}
use net_soldier.Events.Action.{EnforcementAction}
use net_soldier.Drivers.Guard.{check}
use net_soldier.Drivers.ArpIsolate.{
  Bytes, Kernel, ArpDriver, ArpError, send_arp, send_poison, gateway_hardware_addr, resolved,
  learned, parse_target, refusal_of, started, poisoned, apply_to, apply, restore_round,
  restore_rounds, restored, revert_of, revert,
}

module _ {W : Type 0} (kernel : Kernel W) where
  send_arp-active :
      (dst sip smac tip : Bytes) (d : ArpDriver W)
      → (send_arp kernel dst sip smac tip d).1.active ≡ d.active
  unfolding send_arp
  send_arp-active dst sip smac tip d = ground arith

  send_poison-active :
      (ip mac gw : Bytes) (d : ArpDriver W) → (send_poison kernel ip mac gw d).1.active ≡ d.active
  unfolding send_poison
  send_poison-active ip mac gw d =
      let first = send_arp kernel mac d.gateway_ip d.hardware_addr ip d in
      ground (
        arith,
        send_arp-active mac d.gateway_ip d.hardware_addr ip d,
        send_arp-active gw ip d.hardware_addr d.gateway_ip first.1,
      )

  resolved-active :
      (now : ℕ) (o : Option Bytes) (d : ArpDriver W) → (resolved kernel now o d).1.active ≡ d.active
  unfolding resolved learned
  resolved-active now none d = refl
  resolved-active now (some mac) d = refl

  gateway-active :
      (now : ℕ) (d : ArpDriver W) → (gateway_hardware_addr kernel now d).1.active ≡ d.active
  unfolding gateway_hardware_addr
  gateway-active now d = ground (arith, resolved-active now _ d)

  gateway-own :
      (now : ℕ) (d : ArpDriver W)
      → (gateway_hardware_addr kernel now d).1.hardware_addr ≡ d.hardware_addr
  unfolding gateway_hardware_addr resolved learned
  gateway-own now d = ground arith

module _ {W : Type 0} (net : NetParser) (parse_ipv4 : Text → Option Bytes) (kernel : Kernel W) where
  -- Whether both replies of a poison reach the network: the target is told that the gateway is this
  -- host, and the gateway that the target is.
  unfoldable pub Reaches : Bytes → Bytes → Bytes → ArpDriver W → Type 0
  Reaches ip mac gw d =
      let first = send_arp kernel mac d.gateway_ip d.hardware_addr ip d in
      (first.0 ≡ true) × ((send_arp kernel gw ip d.hardware_addr d.gateway_ip first.1).0 ≡ true)

  send_poison-Reaches :
      (ip mac gw : Bytes) (d : ArpDriver W)
      → (send_poison kernel ip mac gw d).0 ≡ true
      → Reaches ip mac gw d
  unfolding send_poison Reaches
  send_poison-Reaches ip mac gw d h = ground arith

  -- Whether the gateway is resolved, and the first poison reaches it and the target.
  unfoldable pub Poisons : Bytes → Bytes → Option Bytes × ArpDriver W → Type 0
  unfolding Reaches
  Poisons ip mac p = (gw : Bytes) × (p.0 ≡ some gw) × Reaches ip mac gw p.1

  -- What an accepted action starts, and what a refused one leaves.
  Starts :
      Text → Bytes → Bytes → Type 0 → Assoc (Bytes × Bytes) → Option ArpError × ArpDriver W → Type 0
  Starts id ip mac P before out =
      ((out.0 ≡ none) × P × (out.1.active ≡ insert id (ip, mac) before))
      ⊎ ((out.0 ≢ none) × (out.1.active ≡ before))

  started-Starts :
      (id : Text) (ip mac : Bytes) (P : Type 0) (before : Assoc (Bytes × Bytes))
      (p : Bool × ArpDriver W)
      → (p.0 ≡ true → P)
      → p.1.active ≡ before
      → Starts id ip mac P before (started net parse_ipv4 kernel id ip mac p)
  unfolding started Starts
  started-Starts id ip mac P before (true, d) sent h =
      inl (refl, sent refl, ap (insert id (ip, mac)) h)
  started-Starts id ip mac P before (false, d) sent h = inr ((λ e. cc), h)

  poisoned-Starts :
      (id : Text) (ip mac : Bytes) (before : Assoc (Bytes × Bytes)) (p : Option Bytes × ArpDriver W)
      → p.1.active ≡ before
      → Starts id ip mac (Poisons ip mac p) before (poisoned net parse_ipv4 kernel id ip mac p)
  unfolding poisoned Starts Poisons
  poisoned-Starts id ip mac before (none, d) h = inr ((λ e. cc), h)
  poisoned-Starts id ip mac before (some gw, d) h =
      elim (Bool-cases (kernel.open_socket d.outside)) [
        | inl opened ↦
            rw (poisoned, opened)
              (started-Starts id ip mac (Poisons ip mac (some gw, d)) before _
                (λ sent. (gw, refl, send_poison-Reaches ip mac gw d sent))
                (send_poison-active kernel ip mac gw d ∙ h))
        | inr shut ↦ rw (poisoned, shut) (inr ((λ e. cc), h))
      ]

  -- Whom Apply accepts: a device that the guard does not protect, and neither the gateway, by its
  -- address or the hardware address known, nor this host.
  unfoldable pub IsTarget : EnforcementAction → Bytes → Bytes → ArpDriver W → Type 0
  IsTarget a ip mac d =
      (check net d.guard a.target_mac a.target_ip ≡ none)
      × (str_eq ip d.gateway_ip ≡ false)
      × (str_eq mac d.gateway_mac ≡ false)
      × (str_eq mac d.hardware_addr ≡ false)

  refusal_of-none :
      (a : EnforcementAction) (ip mac : Bytes) (d : ArpDriver W)
      → refusal_of net parse_ipv4 kernel a ip mac d ≡ none
      → IsTarget a ip mac d
  unfolding refusal_of IsTarget
  refusal_of-none a ip mac d h = ground arith

  unfoldable pub Applied :
      ℕ → EnforcementAction → ArpDriver W → Option ArpError × ArpDriver W → Type 0
  unfolding IsTarget Poisons
  Applied now a d out =
      ((ip : Bytes) × (mac : Bytes) × (out.0 ≡ none)
        × (parse_target net parse_ipv4 kernel a ≡ inr (ip, mac))
        × IsTarget a ip mac d
        × Poisons ip mac (gateway_hardware_addr kernel now d)
        × (lookup a.id out.1.active ≡ some (ip, mac)))
      ⊎ ((out.0 ≢ none) × (out.1.active ≡ d.active))

  accepted-Applied :
      (now : ℕ) (a : EnforcementAction) (ip mac : Bytes) (d : ArpDriver W)
      (out : Option ArpError × ArpDriver W)
      → parse_target net parse_ipv4 kernel a ≡ inr (ip, mac)
      → IsTarget a ip mac d
      → Starts a.id ip mac (Poisons ip mac (gateway_hardware_addr kernel now d)) d.active out
      → Applied now a d out
  unfolding Applied Starts
  accepted-Applied now a ip mac d out h t (inr s) = inr s
  accepted-Applied now a ip mac d out h t (inl s) = inl (
    ip,
    mac,
    s.0,
    h,
    t,
    s.1,
    rw (s.2, lookup-insert a.id a.id (ip, mac) d.active, str_eq_refl a.id) refl,
  )

  apply_to-Applied :
      (now : ℕ) (a : EnforcementAction) (d : ArpDriver W) (t : ArpError ⊎ (Bytes × Bytes))
      → parse_target net parse_ipv4 kernel a ≡ t
      → Applied now a d (apply_to net parse_ipv4 kernel now a t d)
  unfolding apply_to Applied
  apply_to-Applied now a d (inl e) h = inr ((λ e. cc), refl)
  apply_to-Applied now a d (inr (ip, mac)) h =
      elim (Option-cases (refusal_of net parse_ipv4 kernel a ip mac d)) [
        | inr (e, no_target) ↦ rw (apply_to, no_target) (inr ((λ e. cc), refl))
        | inl target ↦
            rw (apply_to, target)
              (accepted-Applied now a ip mac d _ h (refusal_of-none a ip mac d target)
                (poisoned-Starts a.id ip mac d.active _ (gateway-active kernel now d)))
      ]

  -- Apply either reports no error, and then the target is a device that the guard does not protect,
  -- is neither the gateway by its address or by the hardware address last known, nor this
  -- host, both replies of the first poison were sent, to the target and to the resolved gateway,
  -- and a loop of the action goes on with this target; or it reports an error and leaves the
  -- loops as they were.
  pub apply-Applied :
      (now : ℕ) (a : EnforcementAction) (d : ArpDriver W)
      → Applied now a d (apply net parse_ipv4 kernel now a d)
  unfolding apply
  apply-Applied now a d = apply_to-Applied now a d (parse_target net parse_ipv4 kernel a) refl

  restore_round-active :
      (ip mac gw : Bytes) (d : ArpDriver W)
      → (restore_round net parse_ipv4 kernel ip mac gw d).1.active ≡ d.active
  unfolding restore_round
  restore_round-active ip mac gw d =
      send_arp-active kernel gw ip mac d.gateway_ip _
      ∙ send_arp-active kernel mac d.gateway_ip gw ip d

  restore_rounds-active :
      (ip mac gw : Bytes) (dones : List Bool) (failed : Bool) (d : ArpDriver W)
      → (restore_rounds net parse_ipv4 kernel ip mac gw dones failed d).1.active ≡ d.active
  unfolding restore_rounds
  restore_rounds-active ip mac gw [] failed d = restore_round-active ip mac gw d
  restore_rounds-active ip mac gw (true ∷ dones) failed d = restore_round-active ip mac gw d
  restore_rounds-active ip mac gw (false ∷ dones) failed d =
      restore_rounds-active ip mac gw dones _ _ ∙ restore_round-active ip mac gw d

  restored-active :
      (done1 done2 : Bool) (ip mac : Bytes) (p : Option Bytes × ArpDriver W)
      → (restored net parse_ipv4 kernel done1 done2 ip mac p).1.active ≡ p.1.active
  unfolding restored
  restored-active done1 done2 ip mac (none, d) = refl
  restored-active done1 done2 ip mac (some gw, d) =
      elim (Bool-cases (kernel.open_socket d.outside)) [
        | inl opened ↦
            rw (restored, opened) (restore_rounds-active ip mac gw (done1 ∷ done2 ∷ []) false d)
        | inr shut ↦ rw (restored, shut) refl
      ]

  revert_of-active :
      (now : ℕ) (done1 done2 : Bool) (t : ArpError ⊎ (Bytes × Bytes)) (d : ArpDriver W)
      → (revert_of net parse_ipv4 kernel now done1 done2 t d).1.active ≡ d.active
  unfolding revert_of
  revert_of-active now done1 done2 (inl e) d = refl
  revert_of-active now done1 done2 (inr (ip, mac)) d =
      restored-active done1 done2 ip mac _ ∙ gateway-active kernel now d

  -- Revert stops the loop of the action whatever happens, also when it reports an error or its
  -- context ends, and stops no other action's loop.
  pub revert-active :
      (now : ℕ) (done1 done2 : Bool) (a : EnforcementAction) (d : ArpDriver W)
      → let after = (revert net parse_ipv4 kernel now done1 done2 a d).1.active in
        (lookup a.id after ≡ none)
        × ((id : Text) → str_eq a.id id ≡ false → lookup id after ≡ lookup id d.active)
  unfolding revert
  revert-active now done1 done2 a d =
      let stopped : (revert net parse_ipv4 kernel now done1 done2 a d).1.active
          ≡ delete a.id d.active =
        revert_of-active now done1 done2 _ _ in
      (
        rw (stopped, lookup-delete a.id a.id d.active, str_eq_refl a.id) refl,
        λ id other. rw (stopped, lookup-delete a.id id d.active, other) refl,
      )
