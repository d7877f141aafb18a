-- ===== src/Detect/EventMap.antt =====
-- apps/detection-engine/internal/eventmap/eventmap.go: an alert as the event that is posted to the
-- killswitch.
pub mod Heuristics
use net_soldier.Prelude.{List, [], ◌∷◌, Text, codes, str_eq, exists, is_empty, if◌then◌else◌}
use net_soldier.Events.Detection.{DetectionEvent}
use net_soldier.Detect.Alert.{Alert, severity_for_confidence}

-- validIoCTypes
abbrev valid_ioc_types : List Text
valid_ioc_types =
    codes "domain"
    ∷ codes "ip"
    ∷ codes "url"
    ∷ codes "ja3"
    ∷ codes "tlsfp"
    ∷ codes "md5"
    ∷ codes "sha256"
    ∷ []

-- AlertToEvent
unfoldable pub alert_to_event : Alert → DetectionEvent
alert_to_event a = record {
  schema_version = codes "1.0";
  id = a.id;
  timestamp = a.timestamp;
  domain = a.domain;
  matched_ioc = a.matched_ioc;
  ioc_type = if exists (λ t. str_eq t a.ioc_type) valid_ioc_types then a.ioc_type else codes "ip";
  client_ip = a.client_ip;
  client_mac = a.client_mac;
  client_name = a.client_name;
  severity = if is_empty a.severity then severity_for_confidence a.confidence else a.severity;
  confidence = a.confidence;
  source = a.source;
  threat = a.threat;
  mitre_id = a.mitre_id;
  mitre_name = a.mitre_name;
  query_type = a.query_type;
  tags = a.tags;
  signal_class = a.signal_class;
  signals = a.signals;
  signal_count = a.signal_count;
}
