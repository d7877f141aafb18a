-- ===== src/Detect/TlsHeuristics.antt =====
-- apps/detection-engine/internal/tlsheur/analyzer.go: what a TLS client's fingerprint, server name and
-- resolved domain say. The emitted alert is the result. Times are nanoseconds.
pub mod Between
pub mod Repeats
use net_soldier.Prelude.{
  ℕ, ◌+◌, ◌-◌, ◌*◌, Bool, true, false, not, ◌&&◌, ◌||◌, Option, none, some, List, [], ◌∷◌, ◌++◌,
  Text, codes, ℤ, pos, ltb, leb, is_empty, length, drop, keep, exists, to_lower, trim_space,
  trim_suffix, split, join, str_eq, Assoc, lookup, insert, if◌then◌else◌,
}
use net_soldier.Net.Ip.{IpParser, IpNet}
use net_soldier.Detect.Alert.{Alert}
use net_soldier.Detect.Ingest.{SensorEvent, signal_tls}
use net_soldier.Detect.Matcher.{Matcher, match_hash}
use net_soldier.Detect.Matcher.Severity.{Ioc}

abbrev pub suppress_window : ℕ
suppress_window = 3600 * 1000000000

abbrev pub max_suppressed : ℕ
max_suppressed = 16384

pub record Analyzer : Type 0 where
  pub local_nets : List IpNet
  pub suppressed : Assoc ℕ

-- DefaultLocalCIDRs
abbrev pub default_local_cidrs : List Text
default_local_cidrs =
    codes "10.0.0.0/8" ∷ codes "172.16.0.0/12" ∷ codes "192.168.0.0/16" ∷ codes "127.0.0.0/8" ∷ []

-- lastLabels
unfoldable pub last_labels : Text → ℕ → Text
last_labels domain n =
    let lowered = to_lower (trim_suffix (codes ".") domain) in
    let parts = split b'.' lowered in
    if leb (length parts) n then lowered else join b'.' (drop (length parts - n) parts)

-- sameRegistrableDomain
unfoldable pub same_registrable_domain : Text → Text → Bool
same_registrable_domain a b = str_eq (last_labels a 2) (last_labels b 2)

or_text : Text → Text → Text
or_text t fallback = if is_empty t then fallback else t

-- The arguments of the call of alert in Handle.
pub record Finding : Type 0 where
  pub reason : Text
  pub value : Text
  pub severity : Text
  pub confidence : ℤ
  pub ioc : Option Ioc

matched : Text → Text → Option Ioc → Option Finding
matched reason value none = none
matched reason value (some ioc) = some (record {
  reason = reason;
  value = value;
  severity = ioc.severity;
  confidence = ioc.confidence;
  ioc = some ioc;
})

low_finding : Text → Text → ℤ → Finding
low_finding reason value confidence = record {
  reason = reason;
  value = value;
  severity = codes "low";
  confidence = confidence;
  ioc = none;
}

-- A match on a hash that is there.
by_hash : Text → Text → Matcher → Option Finding
unfolding matched
by_hash reason hash m = if is_empty hash then none else matched reason hash (match_hash hash m)

-- The findings on the names.
by_names : SensorEvent → Text → Option Finding
unfolding low_finding
by_names ev resolved =
    if not (is_empty ev.sni)
      && not (is_empty resolved)
      && not (same_registrable_domain ev.sni resolved)
    then some (low_finding (codes "sni-dns-mismatch") (ev.sni ++ codes " vs " ++ resolved) (pos 30))
    else if is_empty ev.sni && is_empty resolved
    then some (low_finding (codes "dns-less-tls") ev.dst_ip (pos 20))
    else none

orelse : Option Finding → Option Finding → Option Finding
orelse none b = b
orelse (some f) b = some f

-- What alert passes on, with the indicator's fields or their defaults.
ioc_text : (Ioc → Text) → Option Ioc → Text → Text
unfolding or_text
ioc_text field none fallback = fallback
ioc_text field (some ioc) fallback = or_text (field ioc) fallback

alert_of : SensorEvent → Finding → Alert
unfolding or_text ioc_text
alert_of ev f =
    let technique = ioc_text (λ i. i.mitre_id) f.ioc [] in
    record {
      id = [];
      timestamp = ev.timestamp;
      domain = or_text ev.sni ev.dst_ip;
      client_ip = ev.src_ip;
      client_mac = [];
      client_name = [];
      query_type = [];
      matched_ioc = f.value;
      ioc_type = ioc_text (λ i. i.kind) f.ioc (codes "tlsfp");
      severity = or_text f.severity (codes "medium");
      source = ioc_text (λ i. i.source) f.ioc (codes "tls-heuristics");
      confidence = f.confidence;
      mitre_id = or_text technique (codes "T1071.001");
      mitre_name =
          if is_empty technique
          then codes "Application Layer Protocol: Web Protocols"
          else ioc_text (λ i. i.mitre_name) f.ioc [];
      threat = ioc_text (λ i. i.threat) f.ioc f.reason;
      tags = [];
      signal_class = signal_tls;
      signals = [];
      signal_count = pos 0;
    }

pub finding_key : SensorEvent → Finding → Text
finding_key ev f =
    ev.src_ip ++ codes "|" ++ ev.dst_ip ++ codes "|" ++ f.reason ++ codes "|" ++ f.value

-- suppress
is_recent : ℕ → Option ℕ → Bool
is_recent now none = false
is_recent now (some until) = ltb now until

swept : ℕ → Assoc ℕ → Assoc ℕ
swept now m =
    if leb max_suppressed (length m) then keep (λ (p : Text × ℕ). not (ltb p.1 now)) m else m

unfoldable pub suppress : ℕ → Text → Assoc ℕ → Bool × Assoc ℕ
unfolding is_recent swept
suppress now k m =
    if is_recent now (lookup k m)
    then (true, m)
    else (false, insert k (now + suppress_window) (swept now m))

-- alert
pub raise : ℕ → SensorEvent → Option Finding → Analyzer → Option Alert × Analyzer
unfolding alert_of finding_key
raise now ev none a = (none, a)
raise now ev (some f) a =
    let asked = suppress now (finding_key ev f) a.suppressed in
    (if asked.0 then none else some (alert_of ev f), record a { suppressed = asked.1 })

module _ (net : IpParser) where
  parse_nets : List Text → List IpNet
  parse_nets [] = []
  parse_nets (c ∷ cs) =
      let rest = parse_nets cs in
      elim (net.parse_cidr (trim_space c)) [ none ↦ rest | some n ↦ n ∷ rest ]

  -- New
  unfoldable pub new_analyzer : List Text → Analyzer
  unfolding parse_nets
  new_analyzer local_cidrs = record { local_nets = parse_nets local_cidrs; suppressed = [] }

  -- isLocal
  unfoldable pub is_local : Text → Analyzer → Bool
  is_local ip a = elim (net.parse_ip ip) [
    | none ↦ true
    | some x ↦
        x.loopback || x.link_local || x.multicast || exists (λ n. net.net_contains n x) a.local_nets
  ]

  -- What Handle finds, for the domain that the destination was resolved from.
  pub finding_of : Matcher → Text → SensorEvent → Analyzer → Option Finding
  unfolding by_hash by_names orelse
  finding_of m resolved ev a =
      if not (str_eq ev.kind (codes "tls-client")) || is_local ev.dst_ip a
      then none
      else orelse (by_hash (codes "tlsfp-ioc") ev.indicator m)
          (orelse (by_hash (codes "ja3-ioc") ev.ja3 m) (by_names ev resolved))

  -- Handle, with a matcher and a resolver that answers for this destination.
  unfoldable pub handle : ℕ → Matcher → Text → SensorEvent → Analyzer → Option Alert × Analyzer
  unfolding finding_of raise
  handle now m resolved ev a = raise now ev (finding_of m resolved ev a) a
