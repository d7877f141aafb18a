-- ===== src/Policy/Rules.antt =====
-- apps/killswitch-controller/internal/policy/policy.go: the decision on a detection event.
pub mod Gates
pub mod Monotone
use net_soldier.Prelude.{
  ℕ, zero, ◌++◌, Bool, true, false, not, ◌&&◌, ◌||◌, Option, none, some, List, [], ◌∷◌, Text, codes,
  ℤ, pos, leb_ℤ, str_eq, leb, format_int, if◌then◌else◌,
}
use net_soldier.Net.Addr.{NetParser}
use net_soldier.Events.Action.{action_dns_sinkhole, action_arp_isolate, action_switch_acl}
use net_soldier.Events.Detection.{
  DetectionEvent, severity_critical, severity_high, severity_medium, severity_low,
  has_known_bad_signal, known_bad_signals,
}
use net_soldier.Policy.Allowlist
use net_soldier.Policy.Allowlist.{Allowlist, contains}

-- The three values of `Decision.Action`.
pub data Verdict : Type 0 where
  auto_block pending ignore : Verdict

pub record Decision : Type 0 where
  pub action : Verdict
  pub action_type : Text
  pub ttl_seconds : ℤ
  pub reason : Text

pub record Policy : Type 0 where
  pub auto_min_confidence : ℤ
  pub auto_min_severity : Text
  pub pend_min_confidence : ℤ
  pub pend_min_severity : Text
  pub default_ttl : ℤ
  pub default_action : Text
  pub auto_min_signals : ℤ
  pub auto_require_known_bad : Bool
  pub allowlist : Allowlist

-- DefaultPolicy
unfoldable pub default_policy : Policy
default_policy = record {
  auto_min_confidence = pos 90;
  auto_min_severity = severity_critical;
  pend_min_confidence = pos 50;
  pend_min_severity = severity_medium;
  default_ttl = pos 3600;
  default_action = action_dns_sinkhole;
  auto_min_signals = pos 1;
  auto_require_known_bad = true;
  allowlist = Allowlist.empty;
}

-- severityRank
unfoldable pub severity_rank : Text → ℕ
severity_rank s =
    if str_eq s severity_critical
    then 4
    else if str_eq s severity_high
    then 3
    else if str_eq s severity_medium
    then 2
    else if str_eq s severity_low
    then 1
    else 0

-- signalCount
signal_count : DetectionEvent → ℤ
signal_count ev = elim ev.signal_count [ pos zero ↦ pos 1 | n ↦ n ]

is_zero : ℤ → Bool
is_zero (pos zero) = true
is_zero _ = false

-- corroborated
unfoldable pub corroborated : Policy → DetectionEvent → Bool
unfolding is_zero
corroborated p ev =
    leb_ℤ p.auto_min_signals (pos 1)
    || is_zero ev.signal_count
    || leb_ℤ p.auto_min_signals ev.signal_count

-- The reasons, as `fmt.Sprintf` writes them.
needs_signals : Policy → DetectionEvent → Text
unfolding signal_count
needs_signals p ev =
    codes "needs "
    ++ format_int p.auto_min_signals
    ++ codes " signals, has "
    ++ format_int (signal_count ev)

-- autoBlockBlockedBy: the reason of a refusal.
unfoldable pub auto_block_blocked_by : Policy → DetectionEvent → Option Text
unfolding needs_signals
auto_block_blocked_by p ev =
    if p.auto_require_known_bad && not (has_known_bad_signal ev)
    then some (codes "no known-bad signal: heuristics alone never auto-block")
    else if not (corroborated p ev)
    then some (needs_signals p ev)
    else none

scores : DetectionEvent → Text
scores ev = codes "confidence=" ++ format_int ev.confidence ++ codes " severity=" ++ ev.severity

-- %v on a slice of strings
spaced : List Text → Text
spaced [] = []
spaced (t ∷ []) = t
spaced (t ∷ u ∷ ts) = t ++ b' ' ∷ spaced (u ∷ ts)

allowlisted_reason : DetectionEvent → Text
allowlisted_reason ev = codes "allowlisted device " ++ ev.client_mac ++ codes " / " ++ ev.client_ip

blocked_reason : Text → DetectionEvent → Text
blocked_reason reason ev =
    codes "pending ("
    ++ reason
    ++ codes "): "
    ++ scores ev
    ++ codes " signals="
    ++ format_int (signal_count ev)

auto_reason : DetectionEvent → Text
auto_reason ev =
    codes "auto: "
    ++ scores ev
    ++ codes " signals="
    ++ format_int (signal_count ev)
    ++ codes " known_bad=["
    ++ spaced (known_bad_signals ev)
    ++ codes "]"

pending_reason : DetectionEvent → Text
pending_reason ev = codes "pending: " ++ scores ev

below_reason : DetectionEvent → Text
below_reason ev = codes "below thresholds: " ++ scores ev

-- A decision to act carries the policy's action and lifetime; one to ignore carries neither.
enforce : Policy → Verdict → Text → Decision
enforce p action reason = record {
  action = action;
  action_type = p.default_action;
  ttl_seconds = p.default_ttl;
  reason = reason;
}

ignored : Text → Decision
ignored reason = record { action = ignore; action_type = []; ttl_seconds = pos 0; reason = reason }

gated : Policy → DetectionEvent → Option Text → Decision
gated p ev none = enforce p auto_block (auto_reason ev)
gated p ev (some reason) = enforce p pending (blocked_reason reason ev)

-- Whether an event reaches the thresholds of automatic, and of pending enforcement.
reaches_auto : Policy → DetectionEvent → Bool
reaches_auto p ev =
    leb_ℤ p.auto_min_confidence ev.confidence
    && leb (severity_rank p.auto_min_severity) (severity_rank ev.severity)

reaches_pending : Policy → DetectionEvent → Bool
reaches_pending p ev =
    leb_ℤ p.pend_min_confidence ev.confidence
    && leb (severity_rank p.pend_min_severity) (severity_rank ev.severity)

-- Evaluate
unfoldable pub evaluate : NetParser → Policy → DetectionEvent → Decision
unfolding allowlisted_reason auto_reason blocked_reason pending_reason below_reason scores spaced
    signal_count enforce ignored gated reaches_auto reaches_pending
evaluate net p ev =
    if contains net ev.client_mac ev.client_ip p.allowlist
    then ignored (allowlisted_reason ev)
    else if reaches_auto p ev
    then gated p ev (auto_block_blocked_by p ev)
    else if reaches_pending p ev
    then enforce p pending (pending_reason ev)
    else ignored (below_reason ev)
