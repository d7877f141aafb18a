-- ===== src/Detect/Examples/Signals.antt =====
-- Tests and examples of the feedback store, the correlator, the TLS heuristics and the pipeline.
use net_soldier.Prelude.{
  ℕ, zero, suc, ◌+◌, ◌-◌, ◌*◌, ◌/◌, ◌≤◌, ◌<◌, ◌≡◌, ◌⊎◌, refl, ap, sym, ◌∙◌, arith, Bool, true,
  false, Option, none, some, List, [], ◌∷◌, Text, codes, ℤ, pos, negsuc, lookup, length, map, All,
  split, to_lower, trim_suffix, leb_ℤ, ltb_ℤ, str_eq, is_empty, if◌then◌else◌,
}
use native.Mathlib.Nat.{mul-le-mul_left}
use net_soldier.Detect.Alert.{Alert, severity_for_confidence}
use net_soldier.Detect.Matcher
use net_soldier.Detect.Matcher.{Matcher, add, match_domain, match_hash, size}
use net_soldier.Detect.Matcher.Severity.{Ioc}
use net_soldier.Detect.Feedback.{
  Verdict, Store, Options, new_with_options, record_verdict, load_into, suppressed, stamped,
}
use net_soldier.Detect.Feedback.Capacity.{IsBounded, feedback-IsBounded}
use net_soldier.Detect.Feedback.Standing.{
  Runs, started, recorded, loaded, replayed, silenced, suppressed-refines,
}
use net_soldier.Detect.Composite.{
  Float64, Correlator, new_correlator, observe, correlation_key, signals_after,
}
use net_soldier.Detect.Composite.Attribution.{IsAttributed, observe-IsAttributed}
use net_soldier.Detect.Composite.Anchor.{IsKnown, composite_of_one_device}
use net_soldier.Detect.Composite.Classes.{IsUnique, IsClassOf}
use net_soldier.Detect.Composite.Confidence.{HasUnitInterval, composite-range}
use net_soldier.Detect.Ingest.{SensorEvent}
use net_soldier.Detect.TlsHeuristics.{Analyzer, handle, is_local, suppress_window, new_analyzer}
use net_soldier.Detect.TlsHeuristics.Between.{Observation, handle_all}
use net_soldier.Detect.TlsHeuristics.Repeats.{handle-grounds}
use net_soldier.Detect.Pipeline.{Pipeline, on_alert}
use net_soldier.Detect.Pipeline.Gate.{Gated, on_alert-Gated}
use net_soldier.Detect.Engine.{Engine, poll}
use net_soldier.Detect.Pipeline.Polls.{Outside, Extends, tell_pipeline, tell_cache, poll-sends}
use net_soldier.Detect.Examples.{one_address, sample_alert, query, fed}

-- A verdict on that device, given at time 10.
abbrev verdict : Verdict
verdict = record {
  alert_id = [];
  matched_ioc = codes "A.example";
  client_ip = codes "10.0.0.7";
  verdict = codes "false_positive";
  reason = [];
  analyst = codes "ana";
  timestamp = none;
}

abbrev options : Options
options = record { ttl = pos 100; max_suppressions = pos 2 }

abbrev judged : Store
judged = (record_verdict 10 verdict (new_with_options none options)).1

judged-Runs : Runs none options 10 (stamped 10 verdict ∷ []) judged
unfolding record_verdict new_with_options lookup str_eq is_empty
judged-Runs =
    recorded 3 10 [] (new_with_options none options) verdict (omega arith) (started 3) refl

-- The verdict is there again after a start, for a store that replays it.
abbrev restarted : Store
restarted = (load_into 20 (some (stamped 10 verdict) ∷ none ∷ []) (new_with_options none options)).1

abbrev after_restart : List Verdict
after_restart =
    replayed 20 (some (stamped 10 verdict) ∷ none ∷ []) [] (new_with_options none options)

suppressed-refines_example :
    (suppressed 50 sample_alert restarted).0 ≡ silenced 50 restarted.ttl sample_alert after_restart
suppressed-refines_example =
    suppressed-refines none options 20 50 after_restart restarted sample_alert
      (loaded 3 20 [] (new_with_options none options) (some (stamped 10 verdict) ∷ none ∷ [])
        (omega arith) (started 3))
      (omega arith)

replay_takes : silenced 50 restarted.ttl sample_alert after_restart ≡ true
unfolding replayed silenced load_into record_verdict new_with_options lookup str_eq is_empty
    net_soldier.Detect.Feedback.key to_lower net_soldier.Prelude.trim_space
replay_takes = refl

new-IsBounded : IsBounded (new_with_options none options)
unfolding IsBounded new_with_options
new-IsBounded = omega arith

feedback-IsBounded_example :
    ((v : Verdict) → IsBounded (record_verdict 10 v (new_with_options none options)).1)
    × ((rows : List (Option Verdict))
        → IsBounded (load_into 10 rows (new_with_options none options)).1)
    × ((a : Alert) → IsBounded (suppressed 10 a (new_with_options none options)).1)
feedback-IsBounded_example = feedback-IsBounded 10 (new_with_options none options) new-IsBounded

abbrev hundredths : ℤ → ℕ
hundredths (pos n) = n * 100
hundredths (negsuc n) = 0

product_le : (x y : ℕ) → x ≤ 100 → y ≤ 100 → x * y / 100 ≤ 100
product_le x y h k = omega (arith, mul-le-mul_left x k)

-- Fixed-point numbers of two decimals, which keep to [0, 1] as float64 does.
abbrev fixed : Float64
fixed = record {
  F = ℕ;
  of_int = hundredths;
  half = 50;
  add = λ a b. a + b;
  sub = λ a b. a - b;
  mul = λ a b. a * b / 100;
  div = λ a b. a * 100 / b;
  to_int = λ a. pos (a / 100);
}

fixed-HasUnitInterval : HasUnitInterval fixed
fixed-HasUnitInterval = record {
  IsUnit = λ a. a ≤ 100;
  of_zero = omega arith;
  of_one = omega arith;
  of_percent = λ n h. omega arith;
  complement = λ x h. omega arith;
  product = product_le;
  rounded = λ x h. ((x * 10000 / 100 + 50) / 100, omega arith, refl);
}

-- A known indicator was seen on the device of the sample alert.
abbrev known_alert : Alert
known_alert = record sample_alert {
  signal_class = codes "ioc";
  confidence = pos 80;
  matched_ioc = codes "evil.example";
}

abbrev correlating : Correlator
correlating = (observe fixed 6 known_alert (new_correlator (pos 100))).1

new-IsAttributed : IsAttributed (new_correlator (pos 100))
unfolding IsAttributed new_correlator
new-IsAttributed = tt

-- The composite that the sample alert completes.
abbrev sample_composite : Alert
sample_composite = record sample_alert {
  id = [];
  timestamp = 7;
  source = codes "composite";
  confidence = pos 100;
  tags = codes "composite" ∷ codes "signal:ioc" ∷ codes "signal:tls" ∷ [];
  signal_class = codes "composite";
  signals = codes "ioc" ∷ codes "tls" ∷ [];
  signal_count = pos 2;
}

completes : (observe fixed 7 sample_alert correlating).0 ≡ some sample_composite
unfolding observe is_empty correlation_key str_eq net_soldier.Detect.Composite.distinct_classes
    net_soldier.Prelude.sort_by net_soldier.Detect.Composite.upsert
    net_soldier.Detect.Composite.prune lookup net_soldier.Detect.Composite.evict
    net_soldier.Prelude.insert new_correlator to_lower net_soldier.Prelude.text_less
    net_soldier.Detect.Composite.build net_soldier.Detect.Composite.combine
    net_soldier.Detect.Composite.best_per_class severity_for_confidence
    net_soldier.Detect.Composite.clamp_prob net_soldier.Detect.Composite.combine_loop
    net_soldier.Detect.Composite.composite_of net_soldier.Detect.Composite.if_confident
    net_soldier.Detect.Composite.signals_after net_soldier.Prelude.delete
    net_soldier.Prelude.insert_by net_soldier.Prelude.to_lower_byte
completes = refl

composite_of_one_device_example :
    (sample_composite.client_mac ≡ sample_alert.client_mac)
    × ((x : Alert) × IsKnown 7 sample_alert correlating x
        × (correlation_key x ≡ correlation_key sample_alert)
        × (sample_composite.domain ≡ x.domain)
        × (sample_composite.matched_ioc ≡ x.matched_ioc)
        × (sample_composite.threat ≡ x.threat))
    × IsAttributed (observe fixed 7 sample_alert correlating).1
composite_of_one_device_example =
    composite_of_one_device fixed 7 sample_alert correlating sample_composite
      (observe-IsAttributed fixed 6 known_alert (new_correlator (pos 100)) new-IsAttributed)
      completes

composite-range_example :
    ((n : ℕ) × (50 ≤ n) × (n ≤ 100) × (sample_composite.confidence ≡ pos n))
    × (sample_composite.severity ≡ severity_for_confidence sample_composite.confidence)
    × (2 ≤ length sample_composite.signals)
    × IsUnique sample_composite.signals
    × All (IsClassOf (signals_after 7 sample_alert correlating)) sample_composite.signals
composite-range_example =
    composite-range fixed fixed-HasUnitInterval 7 sample_alert correlating sample_composite
      completes

-- A TLS client that goes straight to the address.
abbrev tls_event : SensorEvent
tls_event = record {
  sensor = codes "zeek";
  kind = codes "tls-client";
  timestamp = 5;
  flow_id = [];
  src_ip = codes "10.0.0.7";
  src_port = pos 50000;
  dst_ip = codes "203.0.113.9";
  dst_port = pos 443;
  proto = codes "tcp";
  signature = [];
  category = [];
  indicator = [];
  indicator_type = [];
  severity = [];
  confidence = pos 0;
  source = [];
  threat = [];
  sni = [];
  ja3 = [];
}

abbrev analyzer : Analyzer
analyzer = new_analyzer one_address []

abbrev tls_alert : Alert
tls_alert = record {
  id = [];
  timestamp = 5;
  domain = codes "203.0.113.9";
  client_ip = codes "10.0.0.7";
  client_mac = [];
  client_name = [];
  query_type = [];
  matched_ioc = codes "203.0.113.9";
  ioc_type = codes "tlsfp";
  severity = codes "low";
  source = codes "tls-heuristics";
  confidence = pos 20;
  mitre_id = codes "T1071.001";
  mitre_name = codes "Application Layer Protocol: Web Protocols";
  threat = codes "dns-less-tls";
  tags = [];
  signal_class = codes "tls";
  signals = [];
  signal_count = pos 0;
}

raises : (handle one_address 8 Matcher.empty [] tls_event analyzer).0 ≡ some tls_alert
unfolding handle str_eq is_local new_analyzer is_empty net_soldier.Detect.TlsHeuristics.suppress
    lookup
raises = refl

handle-grounds_example :
    (is_local one_address tls_event.dst_ip analyzer ≡ false)
    × (((ioc : Ioc) × (hash : Text) × ((hash ≡ tls_event.indicator) ⊎ (hash ≡ tls_event.ja3))
          × (match_hash hash Matcher.empty ≡ some ioc)
          × (tls_alert.confidence ≡ ioc.confidence))
        ⊎ ((leb_ℤ tls_alert.confidence (pos 30) ≡ true) × (tls_alert.severity ≡ codes "low")))
    × ((later : ℕ) (os : List Observation)
        → later < 8 + suppress_window
        → All (λ (o : Observation). o.at ≤ later) os
        → (handle one_address later Matcher.empty [] tls_event (
            handle_all one_address os
              (handle one_address 8 Matcher.empty [] tls_event analyzer).1)).0
          ≡ none)
handle-grounds_example =
    handle-grounds one_address Matcher.empty [] tls_event 8 analyzer tls_alert raises

-- The pipeline behind the verdict, which silences the sample alert.
abbrev judging : Pipeline
judging = record { feedback = judged; correlate = correlating; sender = some [] }

on_alert-Gated_example :
    Gated none options judged.ttl 50
      (stamped 10 verdict ∷ [])
      (some [])
      (on_alert fixed 50 sample_alert judging)
    × (silenced 50 judged.ttl sample_alert (stamped 10 verdict ∷ []) ≡ true
        → ((on_alert fixed 50 sample_alert judging).sender ≡ judging.sender)
          × ((on_alert fixed 50 sample_alert judging).correlate ≡ judging.correlate))
on_alert-Gated_example =
    on_alert-Gated fixed none options 10 50 (stamped 10 verdict ∷ []) sample_alert judging
      judged-Runs (omega arith)

-- An engine whose alerts go through that pipeline.
abbrev polling : Engine Outside
polling = record {
  last_seen = 4;
  alerts = [];
  counter = 0;
  outside = record { pipeline = judging; dns_cache = [] };
}

poll-sends_example :
    Extends 10 judged.ttl
      (stamped 10 verdict ∷ [])
      (some [])
      (poll one_address none
        (tell_pipeline fixed 10)
        (tell_cache 10)
        fed
        (some (query ∷ []))
        polling).outside.pipeline.sender
poll-sends_example =
    poll-sends one_address none fixed fed (some (query ∷ [])) none options 10
      (stamped 10 verdict ∷ []) polling judged-Runs
