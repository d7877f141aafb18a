-- ===== src/Drivers/Sinkhole.antt =====
-- apps/killswitch-controller/internal/drivers/sinkhole.go: blocking a domain by a filter rule of
-- AdGuard Home. The service is an interface, the mutex makes each call one read and one write.
pub mod Domains
pub mod Rules
use net_soldier.Prelude.{
  ℕ, Bool, true, false, not, ◌&&◌, ◌||◌, Option, none, some, List, [], ◌∷◌, ◌++◌, Text, codes,
  is_empty, trim_space, trim_suffix, to_lower, split, keep, every, exists, str_eq, length, leb, ltb,
  ◌==◌, if◌then◌else◌,
}
use net_soldier.Events.Action.{EnforcementAction}
use net_soldier.Drivers.{Driver}

-- [a-z0-9], and [a-z0-9-]
pub is_alnum : ℕ → Bool
is_alnum c = (leb b'a' c && leb c b'z') || (leb b'0' c && leb c b'9')

is_label_byte : ℕ → Bool
unfolding is_alnum
is_label_byte c = is_alnum c || c == b'-'

-- The last byte of a label that begins with `c`.
last_byte : ℕ → Text → ℕ
last_byte c [] = c
last_byte c (d ∷ s) = last_byte d s

-- [a-z0-9]([a-z0-9-]{0,61}[a-z0-9])?
is_label : Text → Bool
unfolding is_label_byte last_byte
is_label [] = false
is_label (c ∷ s) =
    is_alnum c && every is_label_byte s && is_alnum (last_byte c s) && leb (length (c ∷ s)) 63

-- domainPattern: a label, and one or more labels behind dots.
matches_domain : Text → Bool
unfolding is_label
matches_domain d = let labels = split b'.' d in leb 2 (length labels) && every is_label labels

-- validateDomain; none is its error.
unfoldable pub validate_domain : Text → Option Text
unfolding matches_domain
validate_domain domain =
    let d = to_lower (trim_space (trim_suffix (codes ".") (trim_space domain))) in
    if is_empty d
    then none
    else if ltb 253 (length d)
    then none
    else if matches_domain d
    then some d
    else none

-- The filter rule of a domain.
unfoldable pub rule_of : Text → Text
rule_of domain = codes "||" ++ domain ++ codes "^"

-- AdGuard's user rules: none is a request that failed.
pub record AdGuard (W : Type 0) : Type 0 where
  pub get_rules : W → Option (List Text)
  pub set_rules : List Text → W → Option W

module _ {W : Type 0} (adguard : AdGuard W) where
  written : Option W → W → W × Option Text
  written none w = (w, some (codes "set rules"))
  written (some w') w = (w', none)

  -- Apply, from the rules that were read.
  add_rule : Text → Option (List Text) → W → W × Option Text
  add_rule rule none w = (w, some (codes "get rules"))
  add_rule rule (some rules) w =
      if exists (λ r. str_eq r rule) rules
      then (w, none)
      else written (adguard.set_rules (rules ++ rule ∷ []) w) w

  -- Apply
  unfoldable pub apply : EnforcementAction → W → W × Option Text
  unfolding add_rule written
  apply a w = elim (validate_domain a.blocked_domain) [
    | none ↦ (w, some (codes "not a plain hostname"))
    | some domain ↦ add_rule (rule_of domain) (adguard.get_rules w) w
  ]

  -- Revert, from the rules that were read.
  drop_rule : Text → Option (List Text) → W → W × Option Text
  drop_rule rule none w = (w, some (codes "get rules"))
  drop_rule rule (some rules) w =
      let filtered = keep (λ r. not (str_eq r rule)) rules in
      if length filtered == length rules
      then (w, none)
      else written (adguard.set_rules filtered w) w

  -- Revert
  unfoldable pub revert : EnforcementAction → W → W × Option Text
  unfolding drop_rule written
  revert a w = elim (validate_domain a.blocked_domain) [
    | none ↦ (w, none)
    | some domain ↦ drop_rule (rule_of domain) (adguard.get_rules w) w
  ]

  unfoldable pub sinkhole_driver : Driver W
  sinkhole_driver = record { apply = apply; revert = revert; name = codes "dns_sinkhole" }
