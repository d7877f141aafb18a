-- ===== src/Detect/Examples.antt =====
-- Tests and examples of the detection engine: the matcher, the polls and the events.
mod Signals
use net_soldier.Prelude.{
  ℕ, suc, ◌≤◌, ◌≡◌, refl, arith, true, false, Option, none, some, List, [], ◌∷◌, Text, codes, pos,
  lookup, length, split, to_lower, trim_suffix, str_eq, if◌then◌else◌,
}
use net_soldier.Net.Samples.{sample_net}
use net_soldier.Net.Ip.{IpParser}
use net_soldier.Net.Domain.{IsNarrow}
use net_soldier.Events.Detection.{is_known_bad_signal}
use net_soldier.Policy.Rules.{default_policy}
use net_soldier.Actions.Store.{new_store}
use net_soldier.Drivers.{Driver}
use net_soldier.Controller.{World, handle_evaluate}
use net_soldier.Detect.Alert.{Alert}
use net_soldier.Detect.EventMap.{alert_to_event}
use net_soldier.Detect.EventMap.Heuristics.{is_heuristic, heuristics_never_enforce}
use net_soldier.Detect.Matcher
use net_soldier.Detect.Matcher.{Matcher, add, match_domain, size}
use net_soldier.Detect.Matcher.Severity.{Ioc}
use net_soldier.Detect.Matcher.Validate.{public_suffixes}
use net_soldier.Detect.Matcher.Parents.{IsSafe, IsParent, match_domain-add}
use net_soldier.Detect.Engine.{Engine, QueryLogEntry, poll, max_alerts}
use net_soldier.Detect.Engine.Polls.{poll_twice}

-- A parser that knows one address, outside every network.
abbrev one_address : IpParser
one_address = record {
  parse_cidr = λ t. none;
  split_host_port = λ t. none;
  parse_ip = λ t.
      if str_eq t (codes "203.0.113.9")
      then some (record {
        loopback = false;
        unspecified = false;
        link_local = false;
        multicast = false;
        text = t;
      })
      else none;
  net_contains = λ n ip. false;
}

abbrev feed : List Ioc
feed =
    record {
      value = codes "Evil.example";
      kind = codes "domain";
      source = codes "feed";
      threat = codes "c2";
      confidence = pos 90;
      tags = [];
      severity = [];
      mitre_id = [];
      mitre_name = [];
    }
    ∷ []

empty-IsSafe : IsSafe Matcher.empty.domains
unfolding lookup
empty-IsSafe = record { at = λ k ioc h. cc }

match_domain-add_example :
    IsSafe (add one_address feed Matcher.empty).matcher.domains
    × ((domain : Text) (ioc : Ioc)
        → match_domain domain (add one_address feed Matcher.empty).matcher ≡ some ioc
        → IsParent ioc.value (split b'.' (to_lower (trim_suffix (codes ".") domain)))
          × IsNarrow public_suffixes ioc.value)
match_domain-add_example = match_domain-add one_address feed Matcher.empty empty-IsSafe

-- An alert of a TLS heuristic on a device.
abbrev sample_alert : Alert
sample_alert = record {
  id = codes "DET-1";
  timestamp = 5;
  domain = codes "a.example";
  client_ip = codes "10.0.0.7";
  client_mac = codes "02:00:ab:cd:10:ff";
  client_name = [];
  query_type = [];
  matched_ioc = codes "a.example";
  ioc_type = codes "domain";
  severity = codes "critical";
  source = codes "tls-heuristics";
  confidence = pos 99;
  mitre_id = [];
  mitre_name = [];
  threat = [];
  tags = [];
  signal_class = codes "tls";
  signals = [];
  signal_count = pos 0;
}

-- A network of the ids that are enforced on it, and a new store before it.
abbrev willing : Text → Option (Driver (List Text))
willing action_type =
    some (record {
      apply = λ a n. (a.id ∷ n, none);
      revert = λ a n. ([], none);
      name = codes "willing";
    })

abbrev quiet : World (List Text)
quiet = record {
  store = new_store true (record { max_actions = pos 10; id_prefix = [] });
  network = [];
}

not_known_bad : is_heuristic sample_alert ≡ true
unfolding is_known_bad_signal str_eq
not_known_bad = refl

heuristics_never_enforce_example :
    (handle_evaluate willing sample_net default_policy true 7
      (some (alert_to_event sample_alert))
      quiet).0.network
    ≡ quiet.network
unfolding default_policy
heuristics_never_enforce_example =
    heuristics_never_enforce willing sample_net default_policy true 7 sample_alert quiet refl
      not_known_bad

-- A poll that finds the indicator in a query and in an answer.
abbrev query : QueryLogEntry
query = record {
  host = codes "cdn.evil.example.";
  query_type = codes "A";
  answers = record { value = codes "203.0.113.9"; kind = codes "A"; ttl = pos 60 } ∷ [];
  client = codes "10.0.0.7";
  time = 9;
}

abbrev counting : Engine ℕ
counting = record { last_seen = 4; alerts = []; counter = 0; outside = 0 }

abbrev fed : Matcher
fed = (add one_address feed Matcher.empty).matcher

-- A later entry, which stands before the first in the next log.
abbrev later_query : QueryLogEntry
later_query = record query { time = 12 }

poll_twice_example :
    let once =
      poll one_address none
        (λ a n. suc n)
        (λ ip domain ttl n. n)
        fed
        (some (query ∷ []))
        counting in
    (length once.alerts ≤ max_alerts)
    × (poll one_address none
          (λ a n. suc n)
          (λ ip domain ttl n. n)
          fed
          (some (later_query ∷ query ∷ []))
          once
        ≡ poll one_address none
            (λ a n. suc n)
            (λ ip domain ttl n. n)
            fed
            (some (later_query ∷ []))
            once)
    × (poll one_address none (λ a n. suc n) (λ ip domain ttl n. n) fed (some (query ∷ [])) once
        ≡ once)
poll_twice_example =
    poll_twice one_address none (λ a n. suc n) (λ ip domain ttl n. n) fed (later_query ∷ [])
      (query ∷ []) counting (omega arith)
