-- ===== src/Detect/Ingest.antt =====
-- apps/detection-engine/internal/ingest/model.go: the event of a sensor as an alert.
use net_soldier.Prelude.{
  ℕ, ◌||◌, Option, none, some, [], ◌∷◌, Text, codes, ℤ, pos, negsuc, ◌==◌, ltb_ℤ, is_empty,
  to_lower, trim_prefix, str_eq, exists, if◌then◌else◌,
}
use net_soldier.Net.Ip.{IpParser}
use net_soldier.Events.Detection.{signal_ioc, signal_ids}
use net_soldier.Detect.Alert.{Alert}
use net_soldier.Detect.Matcher.{Matcher, match_domain, match_ip, match_hash}
use net_soldier.Detect.Matcher.Severity.{Ioc, derive_mitre}

pub record SensorEvent : Type 0 where
  pub sensor : Text
  pub kind : Text
  pub timestamp : ℕ
  pub flow_id : Text
  pub src_ip : Text
  pub src_port : ℤ
  pub dst_ip : Text
  pub dst_port : ℤ
  pub proto : Text
  pub signature : Text
  pub category : Text
  pub indicator : Text
  pub indicator_type : Text
  pub severity : Text
  pub confidence : ℤ
  pub source : Text
  pub threat : Text
  pub sni : Text
  pub ja3 : Text

abbrev pub signal_tls : Text
signal_tls = codes "tls"

-- normalizeIntelType
unfoldable pub normalize_intel_type : Text → Text
normalize_intel_type t =
    let name = trim_prefix (codes "Intel::") t in
    if str_eq name (codes "DOMAIN")
    then codes "domain"
    else if str_eq name (codes "ADDR") || str_eq name (codes "SUBNET")
    then codes "ip"
    else if str_eq name (codes "URL")
    then codes "url"
    else if str_eq name (codes "JA3")
    then codes "ja3"
    else if str_eq name (codes "TLSFP")
    then codes "tlsfp"
    else if str_eq name (codes "CERT_HASH")
    then codes "cert-sha256"
    else if str_eq name (codes "FILE_HASH")
    then codes "sha256"
    else to_lower name

-- suricataSeverity
unfoldable pub suricata_severity : ℤ → Text
suricata_severity (pos n) =
    if n == 1 then codes "high" else if n == 2 then codes "medium" else codes "low"
suricata_severity (negsuc n) = codes "low"

pub record ThreatIntelContext : Type 0 where
  pub source : Text
  pub severity : Text
  pub confidence : ℤ
  pub threat : Text

-- applyThreatIntel; none is a text that is empty or does not decode.
unfoldable pub apply_threat_intel : Option ThreatIntelContext → SensorEvent → SensorEvent
apply_threat_intel none e = e
apply_threat_intel (some ti) e = record e {
  severity =
      if is_empty ti.severity || str_eq ti.severity (codes "unknown")
      then e.severity
      else ti.severity;
  confidence = if ltb_ℤ e.confidence ti.confidence then ti.confidence else e.confidence;
  source = if is_empty ti.source then e.source else ti.source;
  threat = if is_empty ti.threat then e.threat else ti.threat;
}

-- signalClass
unfoldable pub signal_class_of : Text → Text
signal_class_of kind =
    if str_eq kind (codes "ids-alert")
    then signal_ids
    else if str_eq kind (codes "intel-hit")
    then signal_ioc
    else if str_eq kind (codes "tls-client")
    then signal_tls
    else if str_eq kind (codes "ml-beacon")
    then codes "beacon"
    else if str_eq kind (codes "ml-anomaly")
    then codes "volumetric"
    else kind

or_text : Text → Text → Text
or_text t fallback = if is_empty t then fallback else t

-- What an indicator that is still known adds.
enriched_by : Option Ioc → Alert → Alert
enriched_by none a = a
enriched_by (some ioc) a = record a {
  severity = ioc.severity;
  confidence = ioc.confidence;
  source = if is_empty ioc.source then a.source else ioc.source;
  threat = if is_empty ioc.threat then a.threat else ioc.threat;
  mitre_id = ioc.mitre_id;
  mitre_name = ioc.mitre_name;
}

-- The alert before it is enriched.
plain_alert : SensorEvent → Alert
unfolding or_text
plain_alert ev = record {
  id = [];
  timestamp = ev.timestamp;
  domain = or_text ev.indicator ev.signature;
  client_ip = ev.src_ip;
  client_mac = [];
  client_name = [];
  query_type = [];
  matched_ioc = or_text ev.indicator ev.signature;
  ioc_type = ev.indicator_type;
  severity = ev.severity;
  source = or_text ev.source ev.sensor;
  confidence = ev.confidence;
  mitre_id = [];
  mitre_name = [];
  threat = or_text ev.threat ev.signature;
  tags = [];
  signal_class = signal_class_of ev.kind;
  signals = [];
  signal_count = pos 0;
}

-- The last two steps: a technique and a severity where there are none.
completed : SensorEvent → Alert → Alert
unfolding or_text
completed ev a =
    let technique = derive_mitre ev.indicator_type ev.threat [] in
    let unknown = is_empty a.mitre_id in
    record a {
      mitre_id = if unknown then technique.0 else a.mitre_id;
      mitre_name = if unknown then technique.1 else a.mitre_name;
      severity = or_text a.severity (codes "medium");
    }

module _ (net : IpParser) where
  -- lookup
  lookup_ioc : Matcher → Text → Text → Option Ioc
  lookup_ioc m kind value =
      if str_eq kind (codes "domain")
      then match_domain value m
      else if str_eq kind (codes "ip")
      then match_ip net value m
      else if exists (λ t. str_eq t kind)
          (codes "ja3" ∷ codes "tlsfp" ∷ codes "md5" ∷ codes "sha256" ∷ [])
      then match_hash value m
      else none

  -- ToAlert, for a matcher that is not nil
  unfoldable pub to_alert : SensorEvent → Matcher → Alert
  unfolding plain_alert lookup_ioc enriched_by completed
  to_alert ev m =
      let known =
        if str_eq ev.kind (codes "intel-hit")
        then lookup_ioc m ev.indicator_type ev.indicator
        else none in
      completed ev (enriched_by known (plain_alert ev))
