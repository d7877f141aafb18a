-- ===== src/Detect/TlsHeuristics/Repeats.antt =====
-- A finding is raised once in its window, and what a heuristic finding may claim.
use net_soldier.Prelude.{
  List, All, ◌≤◌, ℕ, ◌+◌, ◌<◌, ◌≡◌, refl, ap, ◌∙◌, sym, arith, Bool, true, false, Option, none,
  some, Text, codes, pos, leb_ℤ, is_empty, if◌then◌else◌, Option-cases, ◌⊎◌, inl, inr,
}
use net_soldier.Net.Ip.{IpParser}
use net_soldier.Detect.Alert.{Alert}
use net_soldier.Detect.Ingest.{SensorEvent}
use net_soldier.Detect.Matcher.{Matcher, match_hash}
use net_soldier.Detect.Matcher.Severity.{Ioc}
use net_soldier.Detect.TlsHeuristics.Between.{Observation, handle_all, raise_later}
use net_soldier.Detect.TlsHeuristics.{
  Analyzer, Finding, suppress, suppress_window, raise, finding_of, finding_key, alert_of, handle,
  is_local, matched, low_finding, by_hash, by_names, orelse, or_text,
}

answered : (b : Bool) (x y : Alert) → (if b then none else some x) ≡ some y → b ≡ false
answered true x y h = cc
answered false x y h = refl

-- What an alert is founded on.
unfoldable pub IsFounded : Matcher → SensorEvent → Finding → Type 0
IsFounded m ev f =
    ((ioc : Ioc) × (hash : Text) × ((hash ≡ ev.indicator) ⊎ (hash ≡ ev.ja3))
      × (match_hash hash m ≡ some ioc)
      × (f.confidence ≡ ioc.confidence))
    ⊎ ((leb_ℤ f.confidence (pos 30) ≡ true) × (f.severity ≡ codes "low"))

by_hash-IsFounded :
    (m : Matcher) (ev : SensorEvent) (reason hash : Text) (f : Finding)
    → ((hash ≡ ev.indicator) ⊎ (hash ≡ ev.ja3))
    → by_hash reason hash m ≡ some f
    → IsFounded m ev f
unfolding by_hash matched IsFounded
by_hash-IsFounded m ev reason hash f own h = elim (Option-cases (match_hash hash m)) [
  | inl unknown ↦ absurd (ground arith)
  | inr (ioc, known) ↦ inl (ioc, hash, own, known, ground arith)
]

by_names-IsFounded :
    (m : Matcher) (ev : SensorEvent) (resolved : Text) (f : Finding)
    → by_names ev resolved ≡ some f
    → IsFounded m ev f
unfolding by_names low_finding IsFounded
by_names-IsFounded m ev resolved f h = inr (ground arith, ground arith)

orelse-cases :
    (o p : Option Finding) (f : Finding) → orelse o p ≡ some f → (o ≡ some f) ⊎ (p ≡ some f)
unfolding orelse
orelse-cases none p f h = inr h
orelse-cases (some g) p f h = inl h

finding_of-IsFounded :
    (net : IpParser) (m : Matcher) (resolved : Text) (ev : SensorEvent) (a : Analyzer) (f : Finding)
    → finding_of net m resolved ev a ≡ some f
    → (is_local net ev.dst_ip a ≡ false) × IsFounded m ev f
unfolding finding_of
finding_of-IsFounded net m resolved ev a f h =
    let external : is_local net ev.dst_ip a ≡ false = ground arith in
    let found : orelse (by_hash (codes "tlsfp-ioc") ev.indicator m)
          (orelse (by_hash (codes "ja3-ioc") ev.ja3 m) (by_names ev resolved))
        ≡ some f =
      ground arith in
    (
      external,
      elim (orelse-cases _ _ f found) [
        | inl fingerprint ↦
            by_hash-IsFounded m ev (codes "tlsfp-ioc") ev.indicator f (inl refl) fingerprint
        | inr other ↦ elim (orelse-cases _ _ f other) [
          | inl ja3 ↦ by_hash-IsFounded m ev (codes "ja3-ioc") ev.ja3 f (inr refl) ja3
          | inr names ↦ by_names-IsFounded m ev resolved f names
        ]
      ],
    )

raised : (b : Bool) (x y : Alert) → (if b then none else some x) ≡ some y → x ≡ y
raised true x y h = cc
raised false x y h = ground arith

raise-some :
    (now : ℕ) (ev : SensorEvent) (o : Option Finding) (a : Analyzer) (alert : Alert)
    → (raise now ev o a).0 ≡ some alert
    → (f : Finding) × (o ≡ some f) × (alert_of ev f ≡ alert)
unfolding raise
raise-some now ev none a alert h = cc
raise-some now ev (some f) a alert h =
    (f, refl, raised (suppress now (finding_key ev f) a.suppressed).0 (alert_of ev f) alert h)

founded :
    (net : IpParser) (m : Matcher) (resolved : Text) (ev : SensorEvent) (now : ℕ) (a : Analyzer)
    (alert : Alert)
    → (handle net now m resolved ev a).0 ≡ some alert
    → (is_local net ev.dst_ip a ≡ false)
      × (((ioc : Ioc) × (hash : Text) × ((hash ≡ ev.indicator) ⊎ (hash ≡ ev.ja3))
            × (match_hash hash m ≡ some ioc)
            × (alert.confidence ≡ ioc.confidence))
          ⊎ ((leb_ℤ alert.confidence (pos 30) ≡ true) × (alert.severity ≡ codes "low")))
unfolding handle alert_of or_text IsFounded is_empty
founded net m resolved ev now a alert h =
    let (f, found, same) = raise-some now ev (finding_of net m resolved ev a) a alert h in
    let (external, ground_of) = finding_of-IsFounded net m resolved ev a f found in
    (
      external,
      elim ground_of [
        | inl (ioc, hash, own, known, e) ↦
            inl (ioc, hash, own, known, sym (ap (λ (x : Alert). x.confidence) same) ∙ e)
        | inr (small, low) ↦ rw (sym same) (inr (small, rw low refl))
      ],
    )

handle_later :
    (net : IpParser) (m : Matcher) (resolved : Text) (ev : SensorEvent) (now : ℕ) (a : Analyzer)
    (alert : Alert)
    → (handle net now m resolved ev a).0 ≡ some alert
    → (later : ℕ) (os : List Observation) → later < now + suppress_window
    → All (λ (o : Observation). o.at ≤ later) os
    → (handle net later m resolved ev (handle_all net os (handle net now m resolved ev a).1)).0
      ≡ none
unfolding handle raise
handle_later net m resolved ev now a alert h later os soon times =
    let (f, found, same) = raise-some now ev (finding_of net m resolved ev a) a alert h in
    let first : (suppress now (finding_key ev f) a.suppressed).0 ≡ false =
      answered _ (alert_of ev f) alert (sym (ap (λ o. (raise now ev o a).0) found) ∙ h) in
    rw found (raise_later net m resolved ev now later a f os soon times found first)

-- An alert is about a destination outside the local networks, and either has the confidence of the
-- indicator that the matcher knows under the event's fingerprint or JA3 hash, or is of low
-- severity and a confidence of at most 30. The same event raises no second alert within the hour,
-- with the same matcher and the same resolved name, whatever calls of Handle come in between, at
-- times up to that of the second.
pub handle-grounds :
    (net : IpParser) (m : Matcher) (resolved : Text) (ev : SensorEvent) (now : ℕ) (a : Analyzer)
    (alert : Alert)
    → (handle net now m resolved ev a).0 ≡ some alert
    → (is_local net ev.dst_ip a ≡ false)
      × (((ioc : Ioc) × (hash : Text) × ((hash ≡ ev.indicator) ⊎ (hash ≡ ev.ja3))
            × (match_hash hash m ≡ some ioc)
            × (alert.confidence ≡ ioc.confidence))
          ⊎ ((leb_ℤ alert.confidence (pos 30) ≡ true) × (alert.severity ≡ codes "low")))
      × ((later : ℕ) (os : List Observation)
          → later < now + suppress_window
          → All (λ (o : Observation). o.at ≤ later) os
          → (handle net later m resolved ev
              (handle_all net os (handle net now m resolved ev a).1)).0
            ≡ none)
handle-grounds net m resolved ev now a alert h =
    let (external, grounds) = founded net m resolved ev now a alert h in
    (external, grounds, handle_later net m resolved ev now a alert h)
