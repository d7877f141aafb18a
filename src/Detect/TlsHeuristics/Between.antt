-- ===== src/Detect/TlsHeuristics/Between.antt =====
-- What other observations leave of a finding that was raised.
use net_soldier.Prelude.{
  ℕ, ◌+◌, ◌<◌, ◌≤◌, ◌≡◌, refl, ap, ◌∙◌, sym, arith, Bool, true, false, Option, none, some, List, [],
  ◌∷◌, Text, lookup, lookup-insert, keep, All, leb, length, str_eq, str_eq_iff, lt→ltb, str_eq_refl,
  Assoc, insert, Bool-cases, inl, inr,
}
use net_soldier.Net.Ip.{IpParser}
use net_soldier.Detect.Ingest.{SensorEvent}
use net_soldier.Detect.Matcher.{Matcher}
use net_soldier.Detect.TlsHeuristics.{
  Analyzer, Finding, suppress, suppress_window, max_suppressed, swept, is_recent, raise, finding_of,
  finding_key, is_local, handle,
}

-- A call of Handle with its time, the matcher and the resolved name.
pub record Observation : Type 0 where
  pub at : ℕ
  pub matcher : Matcher
  pub resolved : Text
  pub event : SensorEvent

unfoldable pub handle_all : IpParser → List Observation → Analyzer → Analyzer
handle_all net [] a = a
handle_all net (o ∷ os) a = handle_all net os (handle net o.at o.matcher o.resolved o.event a).1

-- A finding is silenced at a time.
Silenced : Text → ℕ → Assoc ℕ → Type 0
Silenced k later m = (until : ℕ) × (lookup k m ≡ some until) × (later < until)

lookup-keep :
    (k : Text) (p : Text × ℕ → Bool) (m : Assoc ℕ) (v : ℕ)
    → ((j : Text) → p (j, v) ≡ true)
    → lookup k m ≡ some v
    → lookup k (keep p m) ≡ some v
unfolding lookup
lookup-keep k p [] v h e = e
lookup-keep k p ((j, w) ∷ m) v h e = elim (Bool-cases (str_eq j k)) [
  | inl same ↦
      let found : w ≡ v = ground arith in
      let kept : p (j, w) ≡ true = rw found (h j) in rw kept (rw same (ap some found))
  | inr other ↦
      let rest = lookup-keep k p m v h (ground arith) in
      elim (Bool-cases (p (j, w))) [ inl kept ↦ rw kept (rw other rest) | inr gone ↦ rw gone rest ]
]

swept-Silenced :
    (k : Text) (now later : ℕ) (m : Assoc ℕ)
    → now ≤ later
    → Silenced k later m
    → Silenced k later (swept now m)
unfolding swept Silenced
swept-Silenced k now later m h (until, found, live) =
    elim (Bool-cases (leb max_suppressed (length m))) [
      | inr few ↦ rw (swept, few) (until, found, live)
      | inl many ↦ rw (swept, many) (until, lookup-keep k _ m until (λ j. ground arith) found, live)
    ]

insert-Silenced :
    (k j : Text) (v later : ℕ) (m : Assoc ℕ)
    → str_eq j k ≡ false
    → Silenced k later m
    → Silenced k later (insert j v m)
unfolding Silenced
insert-Silenced k j v later m other (until, found, live) =
    (until, rw (lookup-insert j k v m, other) found, live)

suppress-Silenced :
    (k j : Text) (now later : ℕ) (m : Assoc ℕ)
    → now ≤ later
    → Silenced k later m
    → Silenced k later (suppress now j m).1
unfolding suppress is_recent Silenced
suppress-Silenced k j now later m h s = elim (Bool-cases (is_recent now (lookup j m))) [
  | inl recent ↦ rw (suppress, recent) s
  | inr new ↦ elim (Bool-cases (str_eq j k)) [
    | inr other ↦
        rw (suppress, new)
          (insert-Silenced k j (now + suppress_window) later _ other
            (swept-Silenced k now later m h s))
    | inl same ↦
        let (until, found, live) = s in
        let found_j : lookup j m ≡ some until =
          ap (λ i. lookup i m) ((str_eq_iff j k).0 same) ∙ found in
        let recent : is_recent now (lookup j m) ≡ true =
          rw found_j (lt→ltb now until (omega arith)) in
        let never : true ≡ false = sym recent ∙ new in cc never
  ]
]

raise-Silenced :
    (k : Text) (now later : ℕ) (ev : SensorEvent) (o : Option Finding) (a : Analyzer)
    → now ≤ later
    → Silenced k later a.suppressed
    → Silenced k later (raise now ev o a).1.suppressed
unfolding raise
raise-Silenced k now later ev none a h s = s
raise-Silenced k now later ev (some f) a h s =
    suppress-Silenced k (finding_key ev f) now later a.suppressed h s

raise-nets :
    (now : ℕ) (ev : SensorEvent) (o : Option Finding) (a : Analyzer)
    → (raise now ev o a).1.local_nets ≡ a.local_nets
unfolding raise
raise-nets now ev none a = refl
raise-nets now ev (some f) a = refl

module _ (net : IpParser) where
  handle_all-Silenced :
      (k : Text) (later : ℕ) (os : List Observation) (a : Analyzer)
      → All (λ (o : Observation). o.at ≤ later) os
      → Silenced k later a.suppressed
      → Silenced k later (handle_all net os a).suppressed
  unfolding handle_all handle
  handle_all-Silenced k later [] a h s = s
  handle_all-Silenced k later (o ∷ os) a h s =
      handle_all-Silenced k later os _ h.1 (raise-Silenced k o.at later o.event _ a h.0 s)

  handle_all-nets :
      (os : List Observation) (a : Analyzer) → (handle_all net os a).local_nets ≡ a.local_nets
  unfolding handle_all handle
  handle_all-nets [] a = refl
  handle_all-nets (o ∷ os) a = handle_all-nets os _ ∙ raise-nets o.at o.event _ a

  same-finding_of :
      (m : Matcher) (resolved : Text) (ev : SensorEvent) (a b : Analyzer)
      → a.local_nets ≡ b.local_nets
      → finding_of net m resolved ev a ≡ finding_of net m resolved ev b
  unfolding finding_of is_local
  same-finding_of m resolved ev a b h = rw h refl

  stays_quiet :
      (later : ℕ) (ev : SensorEvent) (f : Finding) (a : Analyzer)
      → Silenced (finding_key ev f) later a.suppressed
      → (raise later ev (some f) a).0 ≡ none
  unfolding raise suppress is_recent Silenced
  stays_quiet later ev f a (until, found, live) = rw (found, lt→ltb later until live) refl

  raised-Silenced :
      (now later : ℕ) (ev : SensorEvent) (f : Finding) (a : Analyzer)
      → later < now + suppress_window
      → (suppress now (finding_key ev f) a.suppressed).0 ≡ false
      → Silenced (finding_key ev f) later (raise now ev (some f) a).1.suppressed
  unfolding raise suppress Silenced
  raised-Silenced now later ev f a h first =
      let k = finding_key ev f in
      elim (Bool-cases (is_recent now (lookup k a.suppressed))) [
        | inl recent ↦ absurd (ground arith)
        | inr new ↦
            rw (raise, suppress, new)
              (
                now + suppress_window,
                rw
                    (
                      lookup-insert k k (now + suppress_window) (swept now a.suppressed),
                      str_eq_refl k,
                    )
                    refl,
                h,
              )
      ]

  -- What a finding that was raised meets after other observations.
  pub raise_later :
      (m : Matcher) (resolved : Text) (ev : SensorEvent) (now later : ℕ) (a : Analyzer)
      (f : Finding) (os : List Observation)
      → later < now + suppress_window
      → All (λ (o : Observation). o.at ≤ later) os
      → finding_of net m resolved ev a ≡ some f
      → (suppress now (finding_key ev f) a.suppressed).0 ≡ false
      → (handle net later m resolved ev (handle_all net os (raise now ev (some f) a).1)).0 ≡ none
  unfolding handle
  raise_later m resolved ev now later a f os h times found first =
      let once = (raise now ev (some f) a).1 in
      let last = handle_all net os once in
      let again : finding_of net m resolved ev last ≡ some f =
        same-finding_of m resolved ev last a
          (handle_all-nets os once ∙ raise-nets now ev (some f) a)
        ∙ found in
      rw again (
        stays_quiet later ev f last (
          handle_all-Silenced (finding_key ev f) later os once times
            (raised-Silenced now later ev f a h first)))
