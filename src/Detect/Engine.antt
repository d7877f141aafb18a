-- ===== src/Detect/Engine.antt =====
-- apps/detection-engine/internal/detection/engine.go: the poll of AdGuard's query log and the path of
-- an alert. What OnAlert and OnDNSAnswer do is a change of a state S, and the process-wide counter is
-- a field. A device is resolved by a function, which may be absent.
pub mod Polls
pub mod Outside
use net_soldier.Prelude.{
  ℕ, ◌+◌, ◌-◌, Bool, ◌||◌, Option, none, some, List, [], ◌∷◌, ◌++◌, Text, codes, ℤ, ltb, decimal,
  drop, is_empty, length, to_lower, trim_suffix, str_eq, if◌then◌else◌,
}
use net_soldier.Net.Ip.{IpParser}
use net_soldier.Events.Detection.{signal_ioc}
use net_soldier.Detect.Alert.{Alert}
use net_soldier.Detect.Matcher.{Matcher, match_domain, match_ip}
use net_soldier.Detect.Matcher.Severity.{Ioc}

-- adguard.QueryLogEntry
pub record Answer : Type 0 where
  pub value : Text
  pub kind : Text
  pub ttl : ℤ

pub record QueryLogEntry : Type 0 where
  pub host : Text
  pub query_type : Text
  pub answers : List Answer
  pub client : Text
  pub time : ℕ

pub record Engine (S : Type 0) : Type 0 where
  pub last_seen : ℕ
  pub alerts : List Alert
  pub counter : ℕ
  pub outside : S

abbrev pub max_alerts : ℕ
max_alerts = 1000

-- The texts of a default.
or_text : Text → Text → Text
or_text t fallback = if is_empty t then fallback else t

is_address : Answer → Bool
is_address a = str_eq a.kind (codes "A") || str_eq a.kind (codes "AAAA")

-- The ring of alerts.
pushed : Alert → List Alert → List Alert
pushed a alerts =
    let all = alerts ++ a ∷ [] in
    if ltb max_alerts (length all) then drop (length all - max_alerts) all else all

-- The bytes of " (→", the address and ")".
arrow : Text → Text → Text
arrow domain ip = domain ++ codes " (" ++ (226 ∷ 134 ∷ 146 ∷ []) ++ ip ++ codes ")"

-- The time that poll keeps for the next poll.
newest : List QueryLogEntry → ℕ → ℕ
newest [] seen = seen
newest (entry ∷ entries) seen = if ltb seen entry.time then entry.time else seen

module _ {S : Type 0} (net : IpParser) (resolve : Option (Text → Text × Text))
    (on_alert : Alert → S → S) (on_answer : Text → Text → ℤ → S → S) where
  -- resolveClient
  unfoldable pub resolve_client : Text → Text × Text
  resolve_client ip = elim resolve [
    | none ↦ ([], [])
    | some find ↦ if is_empty ip then ([], []) else find ip
  ]

  -- addAlert
  unfoldable pub add_alert : Alert → Engine S → Engine S
  unfolding pushed
  add_alert a e = record e { alerts = pushed a e.alerts; outside = on_alert a e.outside }

  -- The alert of emitAlert.
  alert_of : ℕ → QueryLogEntry → Text → Ioc → Alert
  unfolding or_text
  alert_of n entry domain ioc = record {
    id = codes "DET-" ++ decimal n;
    timestamp = entry.time;
    domain = domain;
    client_ip = entry.client;
    client_mac = (resolve_client entry.client).0;
    client_name = (resolve_client entry.client).1;
    query_type = entry.query_type;
    matched_ioc = ioc.value;
    ioc_type = or_text ioc.kind (codes "domain");
    severity = or_text ioc.severity (codes "high");
    source = or_text ioc.source (codes "local");
    confidence = ioc.confidence;
    mitre_id = ioc.mitre_id;
    mitre_name = ioc.mitre_name;
    threat = ioc.threat;
    tags = ioc.tags;
    signal_class = signal_ioc;
    signals = [];
    signal_count = ℤ.pos 0;
  }

  -- emitAlert
  unfoldable pub emit_alert : QueryLogEntry → Text → Ioc → Engine S → Engine S
  unfolding alert_of
  emit_alert entry domain ioc e =
      add_alert (alert_of (e.counter + 1) entry domain ioc) (record e { counter = e.counter + 1 })

  emit_found : QueryLogEntry → Text → Option Ioc → Engine S → Engine S
  emit_found entry domain none e = e
  emit_found entry domain (some ioc) e = emit_alert entry domain ioc e

  -- The two loops over the answers.
  tell_answers : Text → List Answer → Engine S → Engine S
  tell_answers domain [] e = e
  tell_answers domain (a ∷ as') e =
      tell_answers domain as' (
        if is_address a then record e { outside = on_answer a.value domain a.ttl e.outside } else e)

  check_answers : Matcher → QueryLogEntry → Text → List Answer → Engine S → Engine S
  check_answers m entry domain [] e = e
  check_answers m entry domain (a ∷ as') e = check_answers m entry domain as' (
      if is_address a
      then emit_found entry (arrow domain a.value) (match_ip net a.value m) e
      else e)

  -- What poll does with one entry.
  handle_entry : Matcher → QueryLogEntry → Engine S → Engine S
  unfolding is_address arrow emit_found tell_answers check_answers
  handle_entry m entry e =
      let domain = to_lower (trim_suffix (codes ".") entry.host) in
      let told = tell_answers domain entry.answers e in
      let matched = emit_found entry domain (match_domain domain m) told in
      check_answers m entry domain entry.answers matched

  -- The loop, which stops at the first entry that was seen before.
  poll_loop : Matcher → ℕ → List QueryLogEntry → Engine S → Engine S
  unfolding handle_entry
  poll_loop m seen [] e = e
  poll_loop m seen (entry ∷ entries) e =
      let rest = poll_loop m seen entries (handle_entry m entry e) in
      if ltb seen entry.time then rest else e

  -- poll; none is a query log that could not be read.
  unfoldable pub poll : Matcher → Option (List QueryLogEntry) → Engine S → Engine S
  unfolding poll_loop newest
  poll m none e = e
  poll m (some entries) e =
      let read = poll_loop m e.last_seen entries e in
      record read { last_seen = newest entries e.last_seen }

  -- Ingest
  unfoldable pub ingest : Alert → Engine S → Engine S
  unfolding or_text
  ingest a e =
      let numbered = is_empty a.id in
      let id = if numbered then codes "DET-" ++ decimal (e.counter + 1) else a.id in
      let client = resolve_client a.client_ip in
      let unknown = is_empty a.client_mac in
      add_alert
        (record a {
          id = id;
          severity = or_text a.severity (codes "medium");
          client_mac = if unknown then client.0 else a.client_mac;
          client_name = if unknown then client.1 else a.client_name;
        })
        (record e { counter = if numbered then e.counter + 1 else e.counter })
