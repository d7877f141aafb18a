-- ===== src/Detect/EventMap/Heuristics.antt =====
-- Heuristics alone do not cut a device off, from the alert to the network.
use net_soldier.Prelude.{
  ℕ, ◌≡◌, inl, inr, Bool, true, false, ◌||◌, Option, some, if◌then◌else◌, arith, Text, exists,
}
use net_soldier.Net.Addr.{NetParser}
use net_soldier.Events.Detection.{is_known_bad_signal}
use net_soldier.Policy.Rules.{Policy}
use net_soldier.Policy.Rules.Gates.{IsBlockable}
use net_soldier.Drivers.{Driver}
use net_soldier.Controller.{World, handle_evaluate}
use net_soldier.Controller.Evaluation.{handle_evaluate_safe}
use net_soldier.Detect.Alert.{Alert}
use net_soldier.Detect.EventMap.{alert_to_event}

-- None of the alert's classes is known-bad.
abbrev pub is_heuristic : Alert → Bool
is_heuristic a =
    if is_known_bad_signal a.signal_class || exists is_known_bad_signal a.signals
    then false
    else true

not_blockable :
    (net : NetParser) (p : Policy) (a : Alert)
    → p.auto_require_known_bad ≡ true
    → is_heuristic a ≡ true
    → IsBlockable net p (alert_to_event a)
    → true ≡ false
unfolding alert_to_event
not_blockable net p a on h b =
    let attested : (is_known_bad_signal a.signal_class || exists is_known_bad_signal a.signals)
        ≡ true =
      b.attested on in
    ground arith

-- With a policy that asks for a known-bad class, the event of an alert that has none leaves the
-- network as it is, whatever its confidence and severity, and however many signals it combines.
pub heuristics_never_enforce :
    {W : Type 0} (resolve : Text → Option (Driver W)) (net : NetParser) (p : Policy)
    (allowed : Bool) (now : ℕ) (a : Alert) (w : World W)
    → p.auto_require_known_bad ≡ true
    → is_heuristic a ≡ true
    → (handle_evaluate resolve net p allowed now (some (alert_to_event a)) w).0.network ≡ w.network
heuristics_never_enforce resolve net p allowed now a w on h =
    elim (handle_evaluate_safe resolve net p allowed now (alert_to_event a) w) [
      | inl same ↦ same
      | inr (on_too, b) ↦ let never : true ≡ false = not_blockable net p a on h b in cc never
    ]
