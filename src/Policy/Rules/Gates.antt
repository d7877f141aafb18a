-- ===== src/Policy/Rules/Gates.antt =====
-- What an automatic block requires.
use net_soldier.Prelude.{◌↔◌, ◌≡◌, ◌⊎◌, ◌≤◌, true, false, ◌||◌, arith, pos, leb_ℤ, exists}
use net_soldier.Net.Addr.{NetParser}
use net_soldier.Events.Detection.{DetectionEvent, is_known_bad_signal}
use net_soldier.Events.Detection.Evidence.{has_known_bad_signal_lem}
use net_soldier.Policy.Allowlist.{contains}
use net_soldier.Policy.Rules.{
  Policy, auto_block, evaluate, severity_rank, auto_block_blocked_by, corroborated,
}

-- What must hold of an event that a policy blocks with no human in the loop.
pub record IsBlockable (net : NetParser) (p : Policy) (ev : DetectionEvent) : Type 0 where
  pub unlisted : contains net ev.client_mac ev.client_ip p.allowlist ≡ false
  pub confident : leb_ℤ p.auto_min_confidence ev.confidence ≡ true
  pub severe : severity_rank p.auto_min_severity ≤ severity_rank ev.severity
  pub attested :
      p.auto_require_known_bad ≡ true
      → (is_known_bad_signal ev.signal_class || exists is_known_bad_signal ev.signals) ≡ true
  pub corroboration :
      (leb_ℤ p.auto_min_signals (pos 1) ≡ true)
      ⊎ ((ev.signal_count ≡ pos 0) ⊎ (leb_ℤ p.auto_min_signals ev.signal_count ≡ true))

needs-IsBlockable :
    (net : NetParser) (p : Policy) (ev : DetectionEvent)
    → (evaluate net p ev).action ≡ auto_block
    → IsBlockable net p ev
unfolding evaluate auto_block_blocked_by corroborated
needs-IsBlockable net p ev h = record {
  unlisted = ground arith;
  confident = ground arith;
  severe = ground arith;
  attested = λ q. ground (arith, has_known_bad_signal_lem ev);
  corroboration = ground arith;
}

IsBlockable-suffices :
    (net : NetParser) (p : Policy) (ev : DetectionEvent)
    → IsBlockable net p ev
    → (evaluate net p ev).action ≡ auto_block
unfolding evaluate auto_block_blocked_by corroborated
IsBlockable-suffices net p ev b = ground (arith, has_known_bad_signal_lem ev, b)

-- An event is blocked automatically exactly when its device is not allowlisted, its confidence and
-- severity reach the policy's, a known-bad class is among its signals if the policy asks for one,
-- and it carries the number of signals that the policy asks for, or states none.
pub evaluate-auto_block_iff :
    (net : NetParser) (p : Policy) (ev : DetectionEvent)
    → ((evaluate net p ev).action ≡ auto_block) ↔ IsBlockable net p ev
evaluate-auto_block_iff net p ev = (needs-IsBlockable net p ev, IsBlockable-suffices net p ev)
