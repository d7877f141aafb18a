-- ===== src/Detect/Matcher/Parents.antt =====
-- What a match of a domain means, and that no domain that is too broad can match.
use net_soldier.Prelude.{
  ◌≡◌, refl, sym, ap, ◌∙◌, inl, inr, Option, none, some, List, [], ◌∷◌, ◌++◌, arith, Text, codes,
  Assoc, lookup, lookup-insert, str_eq, str_eq_iff, join, split, to_lower, trim_suffix, Bool-cases,
  Option-cases, trim_space,
}
use net_soldier.Net.Ip.{IpParser, IpNet, Ip}
use net_soldier.Net.Domain.{IsNarrow, check_domain-IsNarrow}
use net_soldier.Detect.Matcher
use net_soldier.Detect.Matcher.{
  Matcher, Added, add, add_loop, add_one, counted, put, replaces, enriched, add_domain, add_cidr,
  add_host, add_hash, found_domain, match_domain,
}
use net_soldier.Detect.Matcher.Severity.{Ioc}
use net_soldier.Detect.Matcher.Validate.{public_suffixes, validate_domain_indicator}

-- Every entry of the domains is narrow, and names its key.
pub record IsSafe (m : Assoc Ioc) : Type 0 where
  pub at :
      (k : Text) (ioc : Ioc) → lookup k m ≡ some ioc → (ioc.value ≡ k) × IsNarrow public_suffixes k

put-IsSafe :
    (k : Text) (ioc : Ioc) (m : Assoc Ioc)
    → ioc.value ≡ k
    → IsNarrow public_suffixes k
    → IsSafe m
    → IsSafe (put k ioc m)
unfolding put
put-IsSafe k ioc m e n s = elim (Bool-cases (replaces ioc (lookup k m))) [
  | inr keeps ↦ rw keeps s
  | inl takes ↦ rw takes (record {
    at = λ j b found. elim (Bool-cases (str_eq k j)) [
      | inr other ↦ s.at j b (ground (arith, lookup-insert k j ioc m))
      | inl same ↦
          let own : ioc ≡ b = ground (arith, lookup-insert k j ioc m) in
          let here : k ≡ j = (str_eq_iff k j).0 same in
          (sym (ap (λ (i : Ioc). i.value) own) ∙ e ∙ here, rw (← here) n)
    ];
  })
]

add_domain-IsSafe :
    (ioc : Ioc) (value : Text) (o : Option Text) (m m' : Matcher)
    → o ≡ validate_domain_indicator value
    → add_domain ioc o m ≡ some m'
    → IsSafe m.domains
    → IsSafe m'.domains
unfolding add_domain validate_domain_indicator
add_domain-IsSafe ioc value none m m' e h s = cc
add_domain-IsSafe ioc value (some d) m m' e h s =
    let after : put d (record ioc { value = d }) m.domains ≡ m'.domains = ground arith in
    rw (← after) (
      put-IsSafe d (record ioc { value = d }) m.domains refl
        (check_domain-IsNarrow public_suffixes _ (sym e)) s)

-- The other kinds leave the domains as they are.
domains-add_cidr :
    (ioc : Ioc) (o : Option IpNet) (m m' : Matcher)
    → add_cidr ioc o m ≡ some m'
    → m'.domains ≡ m.domains
unfolding add_cidr
domains-add_cidr ioc none m m' h = cc
domains-add_cidr ioc (some n) m m' h = ground arith

domains-add_host :
    (ioc : Ioc) (o : Option Ip) (m m' : Matcher)
    → add_host ioc o m ≡ some m'
    → m'.domains ≡ m.domains
unfolding add_host
domains-add_host ioc none m m' h = cc
domains-add_host ioc (some n) m m' h = ground arith

domains-add_hash : (ioc : Ioc) (m m' : Matcher) → add_hash ioc m ≡ some m' → m'.domains ≡ m.domains
unfolding add_hash
domains-add_hash ioc m m' h = ground arith

module _ (net : IpParser) where
  add_one-IsSafe :
      (ioc : Ioc) (m m' : Matcher)
      → add_one net ioc m ≡ some m'
      → IsSafe m.domains
      → IsSafe m'.domains
  unfolding add_one
  add_one-IsSafe ioc m m' h s = elim (Bool-cases (str_eq ioc.kind (codes "domain"))) [
    | inl domain ↦
        let branch : add_domain (enriched ioc) (validate_domain_indicator ioc.value) m ≡ some m' =
          ground arith in
        add_domain-IsSafe (enriched ioc) ioc.value _ m m' refl branch s
    | inr other ↦
        let same : m'.domains ≡ m.domains = ground (
          arith,
          domains-add_hash (enriched ioc) m m',
          domains-add_cidr (enriched ioc) (net.parse_cidr (trim_space ioc.value)) m m',
          domains-add_host (enriched ioc)
              (net.parse_ip (Matcher.host_of net (trim_space ioc.value))) m m',
        ) in
        rw same s
  ]

  loop-IsSafe :
      (iocs : List Ioc) (r : Added)
      → IsSafe r.matcher.domains
      → IsSafe (add_loop net iocs r).matcher.domains
  unfolding add_loop counted
  loop-IsSafe [] r s = s
  loop-IsSafe (ioc ∷ iocs) r s = elim (Option-cases (add_one net ioc r.matcher)) [
    | inl e ↦ rw (add_loop, e) (loop-IsSafe iocs (counted r none) s)
    | inr (m, e) ↦
        rw (add_loop, e)
          (loop-IsSafe iocs (counted r (some m)) (add_one-IsSafe ioc r.matcher m e s))
  ]

-- The name, or one of its parents: what is left of its labels when some are dropped in front.
pub record IsParent (value : Text) (labels : List Text) : Type 0 where
  pub front : List Text
  pub rest : List Text
  pub cut : labels ≡ front ++ rest
  pub joined : value ≡ join b'.' rest

found_domain-IsParent :
    (m : Assoc Ioc) (labels : List Text) {ioc : Ioc}
    → IsSafe m
    → found_domain m labels ≡ some ioc
    → IsParent ioc.value labels × IsNarrow public_suffixes ioc.value
unfolding found_domain
found_domain-IsParent m [] s = λ h. cc
found_domain-IsParent m (p ∷ ps) {ioc} s = elim (Option-cases (lookup (join b'.' (p ∷ ps)) m)) [
  | inr (found, e) ↦
      rw (found_domain, e)
        (λ h.
          let own : found ≡ ioc = ground arith in
          let (named, narrow) = s.at (join b'.' (p ∷ ps)) ioc (e ∙ ap some own) in
          (record { front = []; rest = p ∷ ps; cut = refl; joined = named }, rw named narrow))
  | inl e ↦
      rw (found_domain, e)
        (λ h.
          let (up, narrow) = found_domain-IsParent m ps s h in
          (
            record {
              front = p ∷ up.front;
              rest = up.rest;
              cut = ap (λ (ls : List Text). p ∷ ls) up.cut;
              joined = up.joined;
            },
            narrow,
          ))
]

-- Whatever a feed delivers, the matcher stays safe, and an indicator that matches a domain is then
-- the domain or one of its parents, and narrow: it has two well-formed labels at least and is no
-- public suffix.
pub match_domain-add :
    (net : IpParser) (iocs : List Ioc) (m : Matcher)
    → IsSafe m.domains
    → IsSafe (add net iocs m).matcher.domains
      × ((domain : Text) (ioc : Ioc)
          → match_domain domain (add net iocs m).matcher ≡ some ioc
          → IsParent ioc.value (split b'.' (to_lower (trim_suffix (codes ".") domain)))
            × IsNarrow public_suffixes ioc.value)
unfolding add match_domain
match_domain-add net iocs m s =
    let safe = loop-IsSafe net iocs _ s in (safe, λ domain ioc h. found_domain-IsParent _ _ safe h)
