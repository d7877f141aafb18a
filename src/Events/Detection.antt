-- ===== src/Events/Detection.antt =====
-- libs/events/detection.go: the detection event, its severities and its signal classes.
pub mod Evidence
use net_soldier.Prelude.{
  ℕ, Bool, true, false, not, ◌&&◌, ◌||◌, List, [], ◌∷◌, ◌++◌, Text, codes, ℤ, str_eq, ltb, length,
  if◌then◌else◌,
}

abbrev pub severity_critical : Text
severity_critical = codes "critical"

abbrev pub severity_high : Text
severity_high = codes "high"

abbrev pub severity_medium : Text
severity_medium = codes "medium"

abbrev pub severity_low : Text
severity_low = codes "low"

abbrev pub signal_ioc : Text
signal_ioc = codes "ioc"

abbrev pub signal_ids : Text
signal_ids = codes "ids-signature"

abbrev pub signal_composite : Text
signal_composite = codes "composite"

-- The fields are the event's, whose numbers come from JSON and may be negative.
pub record DetectionEvent : Type 0 where
  pub schema_version : Text
  pub id : Text
  pub timestamp : ℕ
  pub domain : Text
  pub matched_ioc : Text
  pub ioc_type : Text
  pub client_ip : Text
  pub client_mac : Text
  pub client_name : Text
  pub severity : Text
  pub confidence : ℤ
  pub source : Text
  pub threat : Text
  pub mitre_id : Text
  pub mitre_name : Text
  pub query_type : Text
  pub tags : List Text
  pub signal_class : Text
  pub signals : List Text
  pub signal_count : ℤ

-- IsKnownBadSignal
unfoldable pub is_known_bad_signal : Text → Bool
is_known_bad_signal class = str_eq class signal_ioc || str_eq class signal_ids

-- contains
unfoldable pub contains : List Text → Text → Bool
contains [] needle = false
contains (h ∷ hs) needle = let rest = contains hs needle in if str_eq h needle then true else rest

-- The loop over `e.Signals`.
collect_signals : List Text → List Text → List Text
collect_signals out [] = out
collect_signals out (s ∷ ss) =
    collect_signals (if is_known_bad_signal s && not (contains out s) then out ++ s ∷ [] else out)
      ss

-- KnownBadSignals
unfoldable pub known_bad_signals : DetectionEvent → List Text
unfolding collect_signals
known_bad_signals e =
    collect_signals (if is_known_bad_signal e.signal_class then e.signal_class ∷ [] else [])
      e.signals

-- HasKnownBadSignal
unfoldable pub has_known_bad_signal : DetectionEvent → Bool
has_known_bad_signal e = ltb 0 (length (known_bad_signals e))
