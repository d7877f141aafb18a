-- ===== src/Policy/Env/Bounds.antt =====
-- What every configured policy satisfies, whatever the environment holds.
use net_soldier.Prelude.{
  ◌≡◌, ◌≤◌, refl, inl, inr, true, Option, none, some, arith, Text, codes, ℤ, pos, negsuc, leb_ℤ,
  str_eq, is_empty, atoi, Bool-cases,
}
use net_soldier.Net.Addr.{NetParser}
use net_soldier.Events.Action.{action_dns_sinkhole}
use net_soldier.Events.Detection.{severity_critical, severity_medium}
use net_soldier.Policy.Rules.{Policy, severity_rank}
use net_soldier.Policy.Env.{
  Env, load_from_env, value_or, parse_confidence, parse_severity, at_least, parse_action,
  is_valid_severity, is_valid_action, confidence_in_range,
}

pub record IsSound (p : Policy) : Type 0 where
  pub auto_confidence :
      (leb_ℤ (pos 0) p.auto_min_confidence ≡ true) × (leb_ℤ p.auto_min_confidence (pos 100) ≡ true)
  pub pend_confidence :
      (leb_ℤ (pos 0) p.pend_min_confidence ≡ true) × (leb_ℤ p.pend_min_confidence (pos 100) ≡ true)
  pub auto_severity : 1 ≤ severity_rank p.auto_min_severity
  pub pend_severity : 1 ≤ severity_rank p.pend_min_severity
  pub ttl : leb_ℤ (pos 1) p.default_ttl ≡ true
  pub action : is_valid_action p.default_action ≡ true
  pub signals : leb_ℤ (pos 1) p.auto_min_signals ≡ true

-- A property of the default and of whatever is parsed holds of the value.
value_or_inv {ℓ κ} :
    {A : Type ℓ} (P : A → Type κ) (old : A) (v : Text) (parsed : Option A)
    → P old
    → ((new : A) → parsed ≡ some new → P new)
    → P (value_or old v parsed)
unfolding value_or
value_or_inv P old v none h k = elim (Bool-cases (is_empty v)) [ inl e ↦ rw e h | inr e ↦ rw e h ]
value_or_inv P old v (some new) h k = elim (Bool-cases (is_empty v)) [
  | inl e ↦ rw e h
  | inr e ↦ rw e (k new refl)
]

abbrev InRange : ℤ → Type 0
InRange n = (leb_ℤ (pos 0) n ≡ true) × (leb_ℤ n (pos 100) ≡ true)

in_range : (o : Option ℤ) (n : ℤ) → confidence_in_range o ≡ some n → InRange n
unfolding confidence_in_range
in_range none n h = cc
in_range (some (pos m)) n h = ground arith
in_range (some (negsuc m)) n h = ground arith

rank_of_valid : (s : Text) → is_valid_severity s ≡ true → 1 ≤ severity_rank s
unfolding is_valid_severity severity_rank
rank_of_valid s h = ground arith

parsed_severity : (v s : Text) → parse_severity v ≡ some s → 1 ≤ severity_rank s
unfolding parse_severity
parsed_severity v s h =
    let valid : is_valid_severity s ≡ true = ground arith in rank_of_valid s valid

at_least_lem : (low : ℤ) (o : Option ℤ) (n : ℤ) → at_least low o ≡ some n → leb_ℤ low n ≡ true
unfolding at_least
at_least_lem low none n h = cc
at_least_lem low (some m) n h = ground arith

parsed_action : (v a : Text) → parse_action v ≡ some a → is_valid_action a ≡ true
unfolding parse_action
parsed_action v a h = ground arith

default_severity : (1 ≤ severity_rank severity_critical) × (1 ≤ severity_rank severity_medium)
unfolding severity_rank str_eq
default_severity = omega arith

confidence_ok : (v : Text) (old : ℤ) → InRange old → InRange (value_or old v (parse_confidence v))
unfolding parse_confidence
confidence_ok v old h = value_or_inv InRange old v (parse_confidence v) h (λ n. in_range (atoi v) n)

severity_ok :
    (v old : Text) → 1 ≤ severity_rank old → 1 ≤ severity_rank (value_or old v (parse_severity v))
severity_ok v old h =
    value_or_inv (λ s. 1 ≤ severity_rank s) old v (parse_severity v) h (λ s. parsed_severity v s)

at_least_ok :
    (v : Text) (old : ℤ)
    → leb_ℤ (pos 1) old ≡ true
    → leb_ℤ (pos 1) (value_or old v (at_least (pos 1) (atoi v))) ≡ true
at_least_ok v old h =
    value_or_inv (λ n. leb_ℤ (pos 1) n ≡ true) old v (at_least (pos 1) (atoi v)) h
      (λ n. at_least_lem (pos 1) (atoi v) n)

action_ok :
    (v old : Text)
    → is_valid_action old ≡ true
    → is_valid_action (value_or old v (parse_action v)) ≡ true
action_ok v old h =
    value_or_inv (λ a. is_valid_action a ≡ true) old v (parse_action v) h (λ a. parsed_action v a)

-- Whatever the environment holds, the loaded policy has confidence thresholds from 0 to 100, known
-- severities, so that no typo turns a severity test off, a positive lifetime, an action that a
-- driver exists for, and asks for one signal at least.
pub load_from_env-IsSound : (net : NetParser) (getenv : Env) → IsSound (load_from_env net getenv)
unfolding load_from_env
load_from_env-IsSound net getenv = record {
  auto_confidence = confidence_ok (getenv (codes "POLICY_AUTO_CONFIDENCE")) (pos 90) (refl, refl);
  pend_confidence =
      confidence_ok (getenv (codes "POLICY_PENDING_CONFIDENCE")) (pos 50) (refl, refl);
  auto_severity =
      severity_ok (getenv (codes "POLICY_AUTO_SEVERITY")) severity_critical default_severity.0;
  pend_severity =
      severity_ok (getenv (codes "POLICY_PENDING_SEVERITY")) severity_medium default_severity.1;
  ttl = at_least_ok (getenv (codes "POLICY_DEFAULT_TTL")) (pos 3600) refl;
  action =
      action_ok (getenv (codes "POLICY_DEFAULT_ACTION")) action_dns_sinkhole
        (unfold is_valid_action str_eq in refl);
  signals = at_least_ok (getenv (codes "POLICY_AUTO_MIN_SIGNALS")) (pos 1) refl;
}
