-- ===== src/Detect/Composite/Confidence.antt =====
-- The confidence of a composite, on float64 as IEEE 754 has it on [0, 1].
use net_soldier.Prelude.{
  ℕ, ◌≤◌, ◌≡◌, refl, ap, ◌∙◌, sym, arith, Bool, true, false, Option, none, some, List, [], ◌∷◌,
  Text, ℤ, pos, negsuc, ltb_ℤ, ltb, if◌then◌else◌, Bool-cases, inl, inr, length, All,
}
use net_soldier.Detect.Alert.{Alert, severity_for_confidence}
use net_soldier.Detect.Composite.Classes.{
  IsUnique, IsClassOf, distinct_classes-IsUnique, distinct_classes-IsClassOf,
}
use net_soldier.Detect.Composite.{
  Float64, Signal, Correlator, clamp_prob, combine_loop, combine, build, composite_of, if_confident,
  observe, is_ignored, signals_after, distinct_classes, min_emit_confidence,
}

-- What IEEE 754 gives for values in [0, 1]: a whole percentage, a complement and a product are again in
-- it, and a value times 100, rounded half up, is a number up to 100.
pub record HasUnitInterval (float : Float64) : Type 1 where
  pub IsUnit : float.F → Type 0
  pub of_zero : IsUnit (float.of_int (pos 0))
  pub of_one : IsUnit (float.of_int (pos 1))
  pub of_percent :
      (n : ℕ) → n ≤ 100 → IsUnit (float.div (float.of_int (pos n)) (float.of_int (pos 100)))
  pub complement : (x : float.F) → IsUnit x → IsUnit (float.sub (float.of_int (pos 1)) x)
  pub product : (x y : float.F) → IsUnit x → IsUnit y → IsUnit (float.mul x y)
  pub rounded :
      (x : float.F)
      → IsUnit x
      → (n : ℕ) × (n ≤ 100)
        × (float.to_int (float.add (float.mul x (float.of_int (pos 100))) float.half) ≡ pos n)

pub if_confident-some :
    (a b : Alert)
    → if_confident a ≡ some b
    → (a ≡ b) × (ltb_ℤ a.confidence min_emit_confidence ≡ false)
unfolding if_confident
if_confident-some a b h = elim (Bool-cases (ltb_ℤ a.confidence min_emit_confidence)) [
  | inl low ↦ ground arith
  | inr enough ↦ ground arith
]

elsewise :
    {A S : Type 0} (b : Bool) (s : S) (p : Option A × S) (x : A)
    → (if b then (none, s) else p).0 ≡ some x
    → p.0 ≡ some x
elsewise true s p x h = cc
elsewise false s p x h = h

pub observe-some :
    (float : Float64) (now : ℕ) (a : Alert) (c : Correlator) (comp : Alert)
    → (observe float now a c).0 ≡ some comp
    → composite_of float a (signals_after now a c) (distinct_classes (signals_after now a c)) now
      ≡ some comp
unfolding observe
observe-some float now a c comp h = elsewise (is_ignored a) c _ comp h

module _ (float : Float64) (unit : HasUnitInterval float) where
  clamp_prob-IsUnit : (c : ℤ) → unit.IsUnit (clamp_prob float c)
  unfolding clamp_prob
  clamp_prob-IsUnit (negsuc n) = unit.of_zero
  clamp_prob-IsUnit (pos n) = elim (Bool-cases (ltb 100 n)) [
    | inl over ↦ rw (clamp_prob, over) unit.of_one
    | inr within ↦ rw (clamp_prob, within) (unit.of_percent n (ground arith))
  ]

  combine_loop-IsUnit :
      (cs : List ℤ) (inv : float.F) → unit.IsUnit inv → unit.IsUnit (combine_loop float inv cs)
  unfolding combine_loop
  combine_loop-IsUnit [] inv h = h
  combine_loop-IsUnit (c ∷ cs) inv h =
      combine_loop-IsUnit cs _ (unit.product _ _ h (unit.complement _ (clamp_prob-IsUnit c)))

  combine-range : (cs : List ℤ) → (n : ℕ) × (n ≤ 100) × (combine float cs ≡ pos n)
  unfolding combine
  combine-range cs = unit.rounded _ (unit.complement _ (combine_loop-IsUnit cs _ unit.of_one))

  combine_emitted :
      (cs : List ℤ)
      → ltb_ℤ (combine float cs) min_emit_confidence ≡ false
      → (n : ℕ) × (50 ≤ n) × (n ≤ 100) × (combine float cs ≡ pos n)
  combine_emitted cs h =
      let (n, le, e) = combine-range cs in
      let at_least : ltb_ℤ (pos n) (pos 50) ≡ false = sym (ap (λ z. ltb_ℤ z (pos 50)) e) ∙ h in
      (n, ground arith, le, e)

  composite_of-range :
      (a : Alert) (sigs : List Signal) (classes : List Text) (now : ℕ) (comp : Alert)
      → composite_of float a sigs classes now ≡ some comp
      → ((n : ℕ) × (50 ≤ n) × (n ≤ 100) × (comp.confidence ≡ pos n))
        × (comp.severity ≡ severity_for_confidence comp.confidence)
        × (comp.signals ≡ classes)
        × (2 ≤ length classes)
  unfolding composite_of build
  composite_of-range a sigs [] now comp h = cc
  composite_of-range a sigs (cl ∷ []) now comp h = cc
  composite_of-range a sigs (cl ∷ cl' ∷ cls) now comp h =
      let (same, enough) = if_confident-some (build float a sigs cl (cl' ∷ cls) now) comp h in
      rw (sym same) (combine_emitted _ enough, refl, refl, omega arith)

  -- A composite has a confidence of 50 to 100, the severity of that confidence, and names at least two
  -- signal classes, no class twice and each that of a signal held once the alert is recorded,
  -- whatever confidences the alerts came with. It needs that float64 keeps to [0, 1] as IEEE 754 has
  -- it.
  pub composite-range :
      (now : ℕ) (a : Alert) (c : Correlator) (comp : Alert)
      → (observe float now a c).0 ≡ some comp
      → ((n : ℕ) × (50 ≤ n) × (n ≤ 100) × (comp.confidence ≡ pos n))
        × (comp.severity ≡ severity_for_confidence comp.confidence)
        × (2 ≤ length comp.signals)
        × IsUnique comp.signals
        × All (IsClassOf (signals_after now a c)) comp.signals
  composite-range now a c comp h =
      let sigs = signals_after now a c in
      let (range, severity, same, many) =
        composite_of-range a sigs (distinct_classes sigs) now comp
          (observe-some float now a c comp h) in
      (
        range,
        severity,
        rw same many,
        rw same (distinct_classes-IsUnique sigs),
        rw same (distinct_classes-IsClassOf sigs),
      )
