-- ===== src/Detect/Composite.antt =====
-- apps/detection-engine/internal/composite/composite.go: signals of distinct classes about one device,
-- combined. The arithmetic of float64 is a parameter. Observe's emitted alert is its result.
-- Times are those of one clock.
mod Signals
pub mod Attribution
pub mod Confidence
pub mod Classes
pub mod Anchor
unfoldable pub use Signals.*
use net_soldier.Prelude.{
  ℕ, ◌*◌, Bool, not, ◌||◌, Option, none, some, List, [], ◌∷◌, ◌++◌, map, Text, codes, ℤ, pos,
  negsuc, ltb_ℤ, ltb, leb, is_empty, length, to_lower, str_eq, Assoc, lookup, insert, if◌then◌else◌,
}
use net_soldier.Events.Detection.{signal_composite}
use net_soldier.Detect.Alert.{Alert, severity_for_confidence}

-- float64: what the program uses of it.
pub record Float64 : Type 1 where
  pub F : Type 0
  pub of_int : ℤ → F
  pub half : F
  pub add : F → F → F
  pub sub : F → F → F
  pub mul : F → F → F
  pub div : F → F → F
  pub to_int : F → ℤ

pub record Correlator : Type 0 where
  pub window : ℕ
  pub clients : Assoc (List Signal)

-- A time.Duration counts nanoseconds.
abbrev pub default_window : ℕ
default_window = 15 * 60 * 1000000000

abbrev pub min_emit_confidence : ℤ
min_emit_confidence = pos 50

-- New
unfoldable pub new_correlator : ℤ → Correlator
new_correlator (pos n) = record { window = if leb n 0 then default_window else n; clients = [] }
new_correlator (negsuc n) = record { window = default_window; clients = [] }

-- correlationKey
unfoldable pub correlation_key : Alert → Text
correlation_key a =
    if not (is_empty a.client_mac)
    then codes "mac:" ++ to_lower a.client_mac
    else if not (is_empty a.client_ip)
    then codes "ip:" ++ a.client_ip
    else []

-- The signals of the alert's client once the alert is recorded.
unfoldable pub signals_after : ℕ → Alert → Correlator → List Signal
signals_after now a c =
    let known : List Signal = elim (lookup (correlation_key a) c.clients) [
      | none ↦ []
      | some sigs ↦ sigs
    ] in
    upsert (prune c.window now known)
      (record { class = a.signal_class; confidence = a.confidence; alert = a; seen = now })

is_ignored : Alert → Bool
is_ignored a =
    is_empty (correlation_key a)
    || is_empty a.signal_class
    || str_eq a.signal_class signal_composite

unfoldable pub if_confident : Alert → Option Alert
if_confident comp = if ltb_ℤ comp.confidence min_emit_confidence then none else some comp

module _ (float : Float64) where
  -- clampProb
  unfoldable pub clamp_prob : ℤ → float.F
  clamp_prob (negsuc n) = float.of_int (pos 0)
  clamp_prob (pos n) =
      if ltb 100 n
      then float.of_int (pos 1)
      else float.div (float.of_int (pos n)) (float.of_int (pos 100))

  -- combine
  unfoldable pub combine_loop : float.F → List ℤ → float.F
  unfolding clamp_prob
  combine_loop inv [] = inv
  combine_loop inv (c ∷ cs) =
      combine_loop (float.mul inv (float.sub (float.of_int (pos 1)) (clamp_prob c))) cs

  unfoldable pub combine : List ℤ → ℤ
  unfolding combine_loop
  combine confidences = float.to_int (
      float.add
        (float.mul
          (float.sub (float.of_int (pos 1)) (combine_loop (float.of_int (pos 1)) confidences))
          (float.of_int (pos 100)))
        float.half)

  -- build, for a first class and the others.
  unfoldable pub build : Alert → List Signal → Text → List Text → ℕ → Alert
  unfolding best_of strongest
  build trigger sigs first others now =
      let classes = first ∷ others in
      let best = best_per_class sigs in
      let combined = combine (map (λ cl. (best_of best cl).confidence) classes) in
      let anchor = strongest best (best_of best first).alert classes in
      record {
        id = [];
        timestamp = now;
        domain = anchor.domain;
        client_ip = if is_empty trigger.client_ip then anchor.client_ip else trigger.client_ip;
        client_mac = if is_empty trigger.client_mac then anchor.client_mac else trigger.client_mac;
        client_name = trigger.client_name;
        query_type = [];
        matched_ioc = anchor.matched_ioc;
        ioc_type = anchor.ioc_type;
        severity = severity_for_confidence combined;
        source = codes "composite";
        confidence = combined;
        mitre_id = anchor.mitre_id;
        mitre_name = anchor.mitre_name;
        threat = anchor.threat;
        tags = codes "composite" ∷ map (λ cl. codes "signal:" ++ cl) classes;
        signal_class = signal_composite;
        signals = classes;
        signal_count = pos (length classes);
      }

  -- The composite of the signals of one client, when their classes are two or more.
  unfoldable pub composite_of : Alert → List Signal → List Text → ℕ → Option Alert
  unfolding if_confident
  composite_of a sigs [] now = none
  composite_of a sigs (cl ∷ []) now = none
  composite_of a sigs (cl ∷ cl' ∷ cls) now = if_confident (build a sigs cl (cl' ∷ cls) now)

  -- Observe
  unfoldable pub observe : ℕ → Alert → Correlator → Option Alert × Correlator
  unfolding is_ignored signals_after composite_of
  observe now a c =
      if is_ignored a
      then (none, c)
      else let sigs = signals_after now a c in
        (
          composite_of a sigs (distinct_classes sigs) now,
          record c { clients = evict (insert (correlation_key a) sigs c.clients) },
        )
