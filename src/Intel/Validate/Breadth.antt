-- ===== src/Intel/Validate/Breadth.antt =====
-- What validation lets through.
use net_soldier.Prelude.{
  ◌≡◌, refl, sym, ap, ◌∙◌, true, Option, none, some, arith, Text, pos, leb_ℤ, str_eq, trim_space,
}
use net_soldier.Intel.Indicator.{Indicator, type_domain}
use net_soldier.Net.Ip.{IpParser}
use net_soldier.Net.Domain.{IsNarrow, check_domain-IsNarrow}
use net_soldier.Intel.Validate.{
  public_suffixes, validate, validate_domain, validate_ip, in_range, normalize, with_value,
}

-- An indicator that may be stored.
pub record IsAdmissible (i : Indicator) : Type 0 where
  pub low : leb_ℤ (pos 0) i.confidence ≡ true
  pub high : leb_ℤ i.confidence (pos 100) ≡ true
  pub domain : str_eq i.kind type_domain ≡ true → IsNarrow public_suffixes i.value

validate_domain-IsNarrow :
    (value : Text) {d : Text} → validate_domain value ≡ some d → IsNarrow public_suffixes d
unfolding validate_domain
validate_domain-IsNarrow value h = check_domain-IsNarrow public_suffixes _ h

domain_normalized :
    (i : Indicator) (o : Option Text) {j : Indicator}
    → o ≡ validate_domain i.value
    → with_value i o ≡ some j
    → IsNarrow public_suffixes j.value
unfolding with_value
domain_normalized i none e h = cc
domain_normalized i (some v) {j} e h =
    let same : v ≡ j.value = ground arith in validate_domain-IsNarrow i.value (sym e ∙ ap some same)

kind-with_value :
    (i : Indicator) (o : Option Text) {j : Indicator} → with_value i o ≡ some j → j.kind ≡ i.kind
unfolding with_value
kind-with_value i none h = cc
kind-with_value i (some v) {j} h = ground arith

kind-normalize :
    (net : IpParser) (i : Indicator) {j : Indicator} → normalize net i ≡ some j → j.kind ≡ i.kind
unfolding normalize
kind-normalize net i {j} h = ground (
  arith,
  kind-with_value i (validate_domain i.value) {j = j},
  kind-with_value i (validate_ip net i.value) {j = j},
)

normalize_domain :
    (net : IpParser) (i : Indicator) {j : Indicator}
    → normalize net i ≡ some j
    → str_eq i.kind type_domain ≡ true
    → IsNarrow public_suffixes j.value
unfolding normalize
normalize_domain net i {j} h at =
    let read : with_value i (validate_domain i.value) ≡ some j = ground arith in
    domain_normalized i (validate_domain i.value) refl read

ranged :
    (o : Option Indicator) {j : Indicator}
    → in_range o ≡ some j
    → (o ≡ some j) × (leb_ℤ (pos 0) j.confidence ≡ true) × (leb_ℤ j.confidence (pos 100) ≡ true)
unfolding in_range
ranged none h = cc
ranged (some i) {j} h = ground arith

pub validate-IsAdmissible :
    (net : IpParser) (i : Indicator) {j : Indicator} → validate net i ≡ some j → IsAdmissible j
unfolding validate
validate-IsAdmissible net i {j} h =
    let trimmed : Indicator = record i { value = trim_space i.value } in
    let passed : in_range (normalize net trimmed) ≡ some j = ground arith in
    let (same, low, high) = ranged (normalize net trimmed) passed in
    record {
      low = low;
      high = high;
      domain = λ at. normalize_domain net trimmed same (rw (← kind-normalize net trimmed same) at);
    }
