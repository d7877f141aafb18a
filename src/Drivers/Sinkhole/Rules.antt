-- ===== src/Drivers/Sinkhole/Rules.antt =====
-- What Apply and Revert leave in AdGuard.
use net_soldier.Prelude.{
  sym, ◌≡◌, refl, ap, ◌∙◌, inl, inr, Bool, false, not, Option, none, some, List, [], ◌∷◌, ◌++◌,
  arith, Text, keep, length-keep-le, exists, str_eq, str_eq_refl, length, ◌==◌, if◌then◌else◌,
  Bool-cases,
}
use net_soldier.Events.Action.{EnforcementAction}
use net_soldier.Drivers.Sinkhole.{
  AdGuard, apply, revert, add_rule, drop_rule, written, validate_domain, rule_of,
}

abbrev pub holds : Text → List Text → Bool
holds rule = exists (λ r. str_eq r rule)

keep_others :
    (rule : Text) (rules : List Text)
    → holds rule rules ≡ false
    → keep (λ r. not (str_eq r rule)) rules ≡ rules
keep_others rule [] h = refl
keep_others rule (r ∷ rs) h = ground (arith, keep_others rule rs)

not-holds-keep :
    (rule : Text) (rules : List Text) → holds rule (keep (λ r. not (str_eq r rule)) rules) ≡ false
not-holds-keep rule [] = refl
not-holds-keep rule (r ∷ rs) = ground (arith, not-holds-keep rule rs)

-- Filtering the rule out of a list that it was appended to.
keep_appended :
    (rule : Text) (rules : List Text)
    → holds rule rules ≡ false
    → keep (λ r. not (str_eq r rule)) (rules ++ rule ∷ []) ≡ rules
keep_appended rule [] h = ground (arith, str_eq_refl rule)
keep_appended rule (r ∷ rs) h = ground (arith, keep_appended rule rs)

-- A list that filtering does not shorten holds no such rule.
same_length :
    (rule : Text) (rules : List Text)
    → length (keep (λ r. not (str_eq r rule)) rules) ≡ length rules
    → holds rule rules ≡ false
same_length rule [] h = refl
same_length rule (r ∷ rs) h =
    ground (arith, same_length rule rs, length-keep-le (λ t. not (str_eq t rule)) rs)

module _ {W : Type 0} (adguard : AdGuard W) where
  -- What AdGuard documents: the rules that were set are those that are read.
  abbrev pub ReadsBack : Type 0
  ReadsBack =
      (rules : List Text) (w w' : W)
      → adguard.set_rules rules w ≡ some w'
      → adguard.get_rules w' ≡ some rules

  written-Reads :
      (rules : List Text) (w w' : W) (o : Option W)
      → o ≡ adguard.set_rules rules w
      → ReadsBack
      → written adguard o w ≡ (w', none)
      → adguard.get_rules w' ≡ some rules
  unfolding written
  written-Reads rules w w' none e back h = cc
  written-Reads rules w w' (some u) e back h =
      ground (arith, back rules w u (sym e), ap (λ (r : W × Option Text). r.0) h)

  unchanged_reads :
      (rules : List Text) (w w' : W)
      → adguard.get_rules w ≡ some rules
      → ◌≡◌ {A = W × Option Text} (w, none) (w', none)
      → adguard.get_rules w' ≡ some rules
  unchanged_reads rules w w' e h =
      ap adguard.get_rules (sym (ap (λ (r : W × Option Text). r.0) h)) ∙ e

  abbrev pub added : Text → List Text → List Text
  added rule rules = if holds rule rules then rules else rules ++ rule ∷ []

  add_rule_lem :
      (rule : Text) (w w' : W) (o : Option (List Text))
      → o ≡ adguard.get_rules w
      → ReadsBack
      → add_rule adguard rule o w ≡ (w', none)
      → (rules : List Text) × (adguard.get_rules w ≡ some rules)
        × (adguard.get_rules w' ≡ some (added rule rules))
  unfolding add_rule
  add_rule_lem rule w w' none e back = λ h. cc
  add_rule_lem rule w w' (some rules) e back = elim (Bool-cases (holds rule rules)) [
    | inl there ↦ rw there (λ h. (rules, sym e, rw there (unchanged_reads rules w w' (sym e) h)))
    | inr absent ↦
        rw absent
          (λ h. (rules, sym e, rw absent (written-Reads (rules ++ rule ∷ []) w w' _ refl back h)))
  ]

  drop_rule_lem :
      (rule : Text) (w w' : W) (o : Option (List Text))
      → o ≡ adguard.get_rules w
      → ReadsBack
      → drop_rule adguard rule o w ≡ (w', none)
      → (rules : List Text) × (adguard.get_rules w ≡ some rules)
        × (adguard.get_rules w' ≡ some (keep (λ r. not (str_eq r rule)) rules))
  unfolding drop_rule
  drop_rule_lem rule w w' none e back = λ h. cc
  drop_rule_lem rule w w' (some rules) e back =
      let kept = keep (λ r. not (str_eq r rule)) rules in
      elim (Bool-cases (length kept == length rules)) [
        | inl same ↦ rw same (λ h. (
          rules,
          sym e,
          rw (keep_others rule rules (same_length rule rules (ground arith)))
              (unchanged_reads rules w w' (sym e) h),
        ))
        | inr fewer ↦ rw fewer (λ h. (rules, sym e, written-Reads kept w w' _ refl back h))
      ]

  -- After an Apply that reports no error, AdGuard's rules are those of before with the rule of the
  -- domain, appended unless it was there.
  pub apply_lem :
      (a : EnforcementAction) (w w' : W) {d : Text}
      → ReadsBack
      → validate_domain a.blocked_domain ≡ some d
      → apply adguard a w ≡ (w', none)
      → (rules : List Text) × (adguard.get_rules w ≡ some rules)
        × (adguard.get_rules w' ≡ some (added (rule_of d) rules))
  unfolding apply
  apply_lem a w w' {d} back valid =
      rw (valid, apply) (λ h. add_rule_lem (rule_of d) w w' (adguard.get_rules w) refl back h)

  revert_lem :
      (a : EnforcementAction) (w w' : W) {d : Text}
      → ReadsBack
      → validate_domain a.blocked_domain ≡ some d
      → revert adguard a w ≡ (w', none)
      → (rules : List Text) × (adguard.get_rules w ≡ some rules)
        × (adguard.get_rules w' ≡ some (keep (λ r. not (str_eq r (rule_of d))) rules))
  unfolding revert
  revert_lem a w w' {d} back valid =
      rw (valid, revert) (λ h. drop_rule_lem (rule_of d) w w' (adguard.get_rules w) refl back h)

  -- With a service that reads back what was set, an Apply and a Revert that report no error leave
  -- the rules that were there, if the domain's rule was not among them; and after any such Revert
  -- the domain's rule is not in force.
  pub apply-revert :
      (a : EnforcementAction) (w w1 w2 : W) {d : Text} {rules : List Text}
      → ReadsBack
      → validate_domain a.blocked_domain ≡ some d
      → adguard.get_rules w ≡ some rules
      → apply adguard a w ≡ (w1, none)
      → revert adguard a w1 ≡ (w2, none)
      → (left : List Text) × (adguard.get_rules w2 ≡ some left)
        × (holds (rule_of d) left ≡ false)
        × (holds (rule_of d) rules ≡ false → left ≡ rules)
  apply-revert a w w1 w2 {d} {rules} back valid read applied reverted =
      let rule = rule_of d in
      let (before, e, e1) = apply_lem a w w1 back valid applied in
      let (between, f, f2) = revert_lem a w1 w2 back valid reverted in
      (
        keep (λ r. not (str_eq r rule)) between,
        f2,
        not-holds-keep rule between,
        λ fresh. ground (arith, e, e1, f, read, keep_appended rule rules fresh, fresh),
      )
