-- ===== src/Controller/Evaluation.antt =====
-- What an incoming detection event can do with no human in the loop.
use net_soldier.Prelude.{ℕ, ◌≡◌, refl, inl, inr, ◌⊎◌, Bool, true, Option, some, arith, Text}
use net_soldier.Net.Addr.{NetParser}
use net_soldier.Events.Detection.{DetectionEvent}
use net_soldier.Policy.Allowlist.{contains}
use net_soldier.Policy.Rules.{Policy, Decision, Verdict, auto_block, ignore, evaluate}
use net_soldier.Policy.Rules.Gates.{IsBlockable, evaluate-auto_block_iff}
use net_soldier.Drivers.{Driver}
use net_soldier.Controller.{World, handle_evaluate, act, lower}

lower-auto_block :
    (allowed : Bool) (d : Decision)
    → (lower allowed d).action ≡ auto_block
    → (allowed ≡ true) × (d.action ≡ auto_block)
unfolding lower
lower-auto_block allowed d h = ground arith

module _ {W : Type 0} (resolve : Text → Option (Driver W)) where
  act-network :
      (now : ℕ) (ev : DetectionEvent) (d : Decision) (v : Verdict) (w : World W)
      → (v ≡ auto_block) ⊎ ((act resolve now ev d v w).0.network ≡ w.network)
  unfolding act
  act-network now ev d auto_block w = inl refl
  act-network now ev d Verdict.pending w = inr refl
  act-network now ev d ignore w = inr refl

  -- An evaluated event leaves the network as it is, unless automatic blocking is allowed and the
  -- event is one that the policy blocks automatically.
  pub handle_evaluate_safe :
      (net : NetParser) (p : Policy) (allowed : Bool) (now : ℕ) (ev : DetectionEvent) (w : World W)
      → ((handle_evaluate resolve net p allowed now (some ev) w).0.network ≡ w.network)
        ⊎ ((allowed ≡ true) × IsBlockable net p ev)
  unfolding handle_evaluate
  handle_evaluate_safe net p allowed now ev w =
      let d = lower allowed (evaluate net p ev) in
      elim (act-network now ev d d.action w) [
        | inr same ↦ inl same
        | inl auto ↦
            let (on, decided) = lower-auto_block allowed (evaluate net p ev) auto in
            inr (on, (evaluate-auto_block_iff net p ev).0 decided)
      ]

  allowlisted-ignore :
      (net : NetParser) (p : Policy) (allowed : Bool) (ev : DetectionEvent)
      → contains net ev.client_mac ev.client_ip p.allowlist ≡ true
      → (lower allowed (evaluate net p ev)).action ≡ ignore
  unfolding lower evaluate
  allowlisted-ignore net p allowed ev h = rw h refl

  act-ignore :
      (now : ℕ) (ev : DetectionEvent) (d : Decision) (v : Verdict) (w : World W)
      → v ≡ ignore
      → (act resolve now ev d v w).0 ≡ w
  unfolding act
  act-ignore now ev d auto_block w h = cc
  act-ignore now ev d Verdict.pending w h = cc
  act-ignore now ev d ignore w h = refl

  -- An event of an allowlisted device changes nothing: no action is created, none is changed, and
  -- the network stays as it is.
  pub handle_evaluate_allowlisted :
      (net : NetParser) (p : Policy) (allowed : Bool) (now : ℕ) (ev : DetectionEvent) (w : World W)
      → contains net ev.client_mac ev.client_ip p.allowlist ≡ true
      → (handle_evaluate resolve net p allowed now (some ev) w).0 ≡ w
  unfolding handle_evaluate
  handle_evaluate_allowlisted net p allowed now ev w h =
      act-ignore now ev (lower allowed (evaluate net p ev)) _ w
        (allowlisted-ignore net p allowed ev h)
