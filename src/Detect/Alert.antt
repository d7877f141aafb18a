-- ===== src/Detect/Alert.antt =====
-- apps/detection-engine/internal/detection/engine.go: the alert, its signal classes and its severity.
use net_soldier.Prelude.{ℕ, List, Text, ℤ, pos, leb_ℤ, if◌then◌else◌}
use net_soldier.Events.Detection.{severity_critical, severity_high, severity_medium, severity_low}

pub record Alert : Type 0 where
  pub id : Text
  pub timestamp : ℕ
  pub domain : Text
  pub client_ip : Text
  pub client_mac : Text
  pub client_name : Text
  pub query_type : Text
  pub matched_ioc : Text
  pub ioc_type : Text
  pub severity : Text
  pub source : Text
  pub confidence : ℤ
  pub mitre_id : Text
  pub mitre_name : Text
  pub threat : Text
  pub tags : List Text
  pub signal_class : Text
  pub signals : List Text
  pub signal_count : ℤ

-- SeverityForConfidence
unfoldable pub severity_for_confidence : ℤ → Text
severity_for_confidence confidence =
    if leb_ℤ (pos 90) confidence
    then severity_critical
    else if leb_ℤ (pos 70) confidence
    then severity_high
    else if leb_ℤ (pos 50) confidence
    then severity_medium
    else severity_low
