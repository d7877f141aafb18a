-- ===== src/Policy/Env.antt =====
-- apps/killswitch-controller/internal/policy/policy.go: the policy that the environment configures.
-- os.Getenv is a function, empty where a variable is not set; the warnings are not modelled.
pub mod Bounds
use net_soldier.Prelude.{
  ℕ, zero, Bool, true, false, ◌&&◌, ◌||◌, Option, none, some, List, [], ◌∷◌, Text, codes, ℤ, pos,
  negsuc, leb_ℤ, ltb_ℤ, str_eq, is_empty, atoi, trim_space, to_lower, split, if◌then◌else◌,
}
use net_soldier.Net.Addr.{NetParser}
use net_soldier.Events.Action.{action_dns_sinkhole, action_arp_isolate, action_switch_acl}
use net_soldier.Events.Detection.{severity_critical, severity_high, severity_medium, severity_low}
use net_soldier.Policy.Allowlist.{Allowlist, add_mac, add_ip}
use net_soldier.Policy.Rules.{Policy, default_policy}

abbrev pub Env : Type 0
Env = Text → Text

-- validSeverities, validActions
unfoldable pub is_valid_severity : Text → Bool
is_valid_severity s =
    str_eq s severity_critical
    || str_eq s severity_high
    || str_eq s severity_medium
    || str_eq s severity_low

unfoldable pub is_valid_action : Text → Bool
is_valid_action s =
    str_eq s action_dns_sinkhole || str_eq s action_arp_isolate || str_eq s action_switch_acl

confidence_in_range : Option ℤ → Option ℤ
confidence_in_range none = none
confidence_in_range (some n) = if ltb_ℤ n (pos 0) || ltb_ℤ (pos 100) n then none else some n

-- parseConfidence
parse_confidence : Text → Option ℤ
unfolding confidence_in_range
parse_confidence v = confidence_in_range (atoi v)

-- parseSeverity
parse_severity : Text → Option Text
parse_severity v = let s = to_lower (trim_space v) in if is_valid_severity s then some s else none

at_least : ℤ → Option ℤ → Option ℤ
at_least low none = none
at_least low (some n) = if leb_ℤ low n then some n else none

-- A value that is absent, or refused, leaves the default.
value_or {ℓ} : {A : Type ℓ} → A → Text → Option A → A
value_or old v parsed = if is_empty v then old else elim parsed [ none ↦ old | some new ↦ new ]

parse_action : Text → Option Text
parse_action v = if is_valid_action v then some v else none

-- The switch on POLICY_AUTO_REQUIRE_KNOWN_BAD.
parse_switch : Text → Option Bool
parse_switch v =
    if str_eq v (codes "0") || str_eq v (codes "false") || str_eq v (codes "no")
    then some false
    else if str_eq v (codes "1") || str_eq v (codes "true") || str_eq v (codes "yes")
    then some true
    else none

-- A refused entry is logged and skipped.
keep_added : Allowlist → Option Allowlist → Allowlist
keep_added a none = a
keep_added a (some a') = a'

add_macs : List Text → Allowlist → Allowlist
add_macs [] a = a
add_macs (m ∷ ms) a =
    add_macs ms (if is_empty (trim_space m) then a else keep_added a (add_mac (trim_space m) a))

add_ips : NetParser → List Text → Allowlist → Allowlist
add_ips net [] a = a
add_ips net (ip ∷ ips) a =
    add_ips net ips
      (if is_empty (trim_space ip) then a else keep_added a (add_ip net (trim_space ip) a))

load_allowlist : NetParser → Env → Allowlist → Allowlist
unfolding add_macs add_ips keep_added
load_allowlist net getenv a =
    let macs = getenv (codes "ALLOWLIST_MACS") in
    let ips = getenv (codes "ALLOWLIST_IPS") in
    let b = if is_empty macs then a else add_macs (split b',' macs) a in
    if is_empty ips then b else add_ips net (split b',' ips) b

-- LoadFromEnv
unfoldable pub load_from_env : NetParser → Env → Policy
unfolding default_policy value_or parse_confidence parse_severity parse_action parse_switch at_least
    load_allowlist
load_from_env net getenv =
    let p = default_policy in
    let auto_confidence = getenv (codes "POLICY_AUTO_CONFIDENCE") in
    let auto_severity = getenv (codes "POLICY_AUTO_SEVERITY") in
    let pending_confidence = getenv (codes "POLICY_PENDING_CONFIDENCE") in
    let pending_severity = getenv (codes "POLICY_PENDING_SEVERITY") in
    let ttl = getenv (codes "POLICY_DEFAULT_TTL") in
    let action = getenv (codes "POLICY_DEFAULT_ACTION") in
    let signals = getenv (codes "POLICY_AUTO_MIN_SIGNALS") in
    let known_bad = getenv (codes "POLICY_AUTO_REQUIRE_KNOWN_BAD") in
    record {
      auto_min_confidence =
          value_or p.auto_min_confidence auto_confidence (parse_confidence auto_confidence);
      auto_min_severity = value_or p.auto_min_severity auto_severity (parse_severity auto_severity);
      pend_min_confidence =
          value_or p.pend_min_confidence pending_confidence (parse_confidence pending_confidence);
      pend_min_severity =
          value_or p.pend_min_severity pending_severity (parse_severity pending_severity);
      default_ttl = value_or p.default_ttl ttl (at_least (pos 1) (atoi ttl));
      default_action = value_or p.default_action action (parse_action action);
      auto_min_signals = value_or p.auto_min_signals signals (at_least (pos 1) (atoi signals));
      auto_require_known_bad =
          value_or p.auto_require_known_bad known_bad (parse_switch (to_lower known_bad));
      allowlist = load_allowlist net getenv p.allowlist;
    }
