-- ===== src/Policy/Rules/Monotone.antt =====
-- More evidence never weakens a decision.
use net_soldier.Prelude.{ℕ, ◌≡◌, ◌≤◌, true, arith, ℤ, leb_ℤ, leb_ℤ_trans, refl, Text}
use net_soldier.Net.Addr.{NetParser}
use net_soldier.Events.Detection.{DetectionEvent, has_known_bad_signal, known_bad_signals}
use net_soldier.Policy.Rules.{
  Policy, Verdict, auto_block, pending, ignore, evaluate, severity_rank, auto_block_blocked_by,
  corroborated,
}

-- How far a decision goes.
abbrev pub level : Verdict → ℕ
level ignore = 0
level pending = 1
level auto_block = 2

-- The gates read neither confidence nor severity.
gates_same :
    (p : Policy) (ev : DetectionEvent) (confidence : ℤ) (severity : Text)
    → auto_block_blocked_by p (record ev { confidence = confidence; severity = severity })
      ≡ auto_block_blocked_by p ev
unfolding auto_block_blocked_by has_known_bad_signal known_bad_signals corroborated
gates_same p ev confidence severity = refl

-- Of two events that differ in confidence or severity alone, the one with no less of either gets
-- no weaker a decision.
pub evaluate_monotone :
    (net : NetParser) (p : Policy) (ev : DetectionEvent) (confidence : ℤ) (severity : Text)
    → leb_ℤ ev.confidence confidence ≡ true
    → severity_rank ev.severity ≤ severity_rank severity
    → level (evaluate net p ev).action
      ≤ level (evaluate net p (record ev { confidence = confidence; severity = severity })).action
unfolding evaluate
evaluate_monotone net p ev confidence severity h k = ground (
  arith,
  leb_ℤ_trans p.auto_min_confidence ev.confidence confidence,
  leb_ℤ_trans p.pend_min_confidence ev.confidence confidence,
  gates_same p ev confidence severity,
)
