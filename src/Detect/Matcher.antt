-- ===== src/Detect/Matcher.antt =====
-- apps/detection-engine/internal/iocmatch/matcher.go: the indicators by kind. Each method holds the
-- mutex. A map of networks is ranged over in the order of insertion, where Go leaves it open.
pub mod Severity
pub mod Validate
pub mod Parents
pub mod Resync
use net_soldier.Prelude.{
  ℕ, ◌+◌, Bool, true, ◌&&◌, ◌||◌, Option, none, some, List, [], ◌∷◌, Text, codes, ℤ, leb_ℤ, ltb,
  ◌==◌, Assoc, lookup, insert, is_empty, to_lower, trim_space, trim_suffix, has_byte, has_prefix,
  split, join, str_eq, exists, length, if◌then◌else◌,
}
use net_soldier.Net.Ip.{IpParser, IpNet, Ip}
use net_soldier.Detect.Matcher.Severity.{Ioc, derive_severity, derive_mitre}
use net_soldier.Detect.Matcher.Validate.{validate_domain_indicator}

pub record CidrEntry : Type 0 where
  pub net : IpNet
  pub ioc : Ioc

pub record Matcher : Type 0 where
  pub domains : Assoc Ioc
  pub ips : Assoc Ioc
  pub cidrs : Assoc CidrEntry
  pub hashes : Assoc Ioc

-- New
abbrev pub empty : Matcher
empty = record { domains = []; ips = []; cidrs = []; hashes = [] }

-- Whether an entry replaces what a key holds.
replaces : Ioc → Option Ioc → Bool
replaces ioc none = true
replaces ioc (some old) = leb_ℤ old.confidence ioc.confidence

-- m[key] = ioc, unless the key holds an entry of more confidence
put : Text → Ioc → Assoc Ioc → Assoc Ioc
unfolding replaces
put k ioc m = if replaces ioc (lookup k m) then insert k ioc m else m

entry_ioc : Option CidrEntry → Option Ioc
entry_ioc none = none
entry_ioc (some e) = some e.ioc

put_net : Text → CidrEntry → Assoc CidrEntry → Assoc CidrEntry
unfolding replaces entry_ioc
put_net k e m = if replaces e.ioc (entry_ioc (lookup k m)) then insert k e m else m

-- What the loop does first: the severity and the technique.
enriched : Ioc → Ioc
enriched ioc =
    let technique = derive_mitre ioc.kind ioc.threat ioc.tags in
    record ioc {
      severity = derive_severity ioc.confidence;
      mitre_id = technique.0;
      mitre_name = technique.1;
    }

-- The branches of the switch; none is a rejected indicator.
add_domain : Ioc → Option Text → Matcher → Option Matcher
add_domain ioc none m = none
add_domain ioc (some d) m = some (record m { domains = put d (record ioc { value = d }) m.domains })

add_cidr : Ioc → Option IpNet → Matcher → Option Matcher
add_cidr ioc none m = none
add_cidr ioc (some n) m =
    if n.ones == 0 && ltb 0 n.bits
    then none
    else some (record m { cidrs = put_net n.text (record { net = n; ioc = ioc }) m.cidrs })

add_host : Ioc → Option Ip → Matcher → Option Matcher
add_host ioc none m = none
add_host ioc (some ip) m =
    some (record m { ips = put ip.text (record ioc { value = ip.text }) m.ips })

add_hash : Ioc → Matcher → Option Matcher
add_hash ioc m =
    let k = to_lower (trim_space ioc.value) in
    if is_empty k then none else some (record m { hashes = put k ioc m.hashes })

abbrev hash_kinds : List Text
hash_kinds = codes "ja3" ∷ codes "tlsfp" ∷ codes "md5" ∷ codes "sha256" ∷ []

pub record Added : Type 0 where
  pub matcher : Matcher
  pub added : ℕ
  pub rejected : ℕ

counted : Added → Option Matcher → Added
counted r none = record r { rejected = r.rejected + 1 }
counted r (some m) = record r { matcher = m; added = r.added + 1 }

found_domain : Assoc Ioc → List Text → Option Ioc
found_domain m [] = none
found_domain m (p ∷ ps) = elim (lookup (join b'.' (p ∷ ps)) m) [
  | some ioc ↦ some ioc
  | none ↦ found_domain m ps
]

-- MatchDomain: the domain, and then its parents.
unfoldable pub match_domain : Text → Matcher → Option Ioc
unfolding found_domain
match_domain domain m =
    found_domain m.domains (split b'.' (to_lower (trim_suffix (codes ".") domain)))

-- MatchHash
unfoldable pub match_hash : Text → Matcher → Option Ioc
match_hash hash m = lookup (to_lower hash) m.hashes

-- Size
unfoldable pub size : Matcher → ℕ
size m = length m.domains + length m.ips + length m.cidrs + length m.hashes

-- CIDRCount
unfoldable pub cidr_count : Matcher → ℕ
cidr_count m = length m.cidrs

-- A line of LoadDomainsFromFile, already trimmed.
static_ioc : Text → Ioc
static_ioc line = record {
  value = to_lower line;
  kind = codes "domain";
  source = codes "local";
  threat = [];
  confidence = ℤ.pos 80;
  tags = codes "static" ∷ [];
  severity = [];
  mitre_id = [];
  mitre_name = [];
}

-- LoadDomainsFromFile, from the lines of the file.
unfoldable pub load_domains : List Text → List Ioc
unfolding static_ioc
load_domains [] = []
load_domains (l ∷ ls) =
    let line = trim_space l in
    let rest = load_domains ls in
    if is_empty line || has_prefix (codes "#") line then rest else static_ioc line ∷ rest

module _ (net : IpParser) where
  host_of : Text → Text
  host_of v = elim (net.split_host_port v) [ none ↦ v | some h ↦ h ]

  -- The body of the loop.
  add_one : Ioc → Matcher → Option Matcher
  unfolding host_of enriched add_domain add_cidr add_host add_hash put put_net
  add_one ioc m =
      let e = enriched ioc in
      if str_eq ioc.kind (codes "domain")
      then add_domain e (validate_domain_indicator ioc.value) m
      else if str_eq ioc.kind (codes "ip")
      then (if has_byte b'/' ioc.value
          then add_cidr e (net.parse_cidr (trim_space ioc.value)) m
          else add_host e (net.parse_ip (host_of (trim_space ioc.value))) m)
      else if exists (λ t. str_eq t ioc.kind) hash_kinds
      then add_hash e m
      else none

  add_loop : List Ioc → Added → Added
  unfolding counted add_one
  add_loop [] r = r
  add_loop (ioc ∷ iocs) r = add_loop iocs (counted r (add_one ioc r.matcher))

  -- Add
  unfoldable pub add : List Ioc → Matcher → Added
  unfolding add_loop
  add iocs m = add_loop iocs (record { matcher = m; added = 0; rejected = 0 })

  found_net : Ip → Assoc CidrEntry → Option Ioc
  found_net ip [] = none
  found_net ip ((k, e) ∷ m) =
      let rest = found_net ip m in if net.net_contains e.net ip then some e.ioc else rest

  found_ip : Option Ip → Matcher → Option Ioc
  unfolding found_net
  found_ip none m = none
  found_ip (some ip) m = elim (lookup ip.text m.ips) [
    | some ioc ↦ some ioc
    | none ↦ found_net ip m.cidrs
  ]

  -- MatchIP
  unfoldable pub match_ip : Text → Matcher → Option Ioc
  unfolding found_ip
  match_ip ip m = found_ip (net.parse_ip (trim_space ip)) m
