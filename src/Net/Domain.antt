-- ===== src/Net/Domain.antt =====
-- The checks of a domain that a feed delivers, which apps/threat-intel-sync/internal/ioc/validate.go
-- and apps/detection-engine/internal/iocmatch/validate.go both make, each with its own suffixes.
use net_soldier.Prelude.{
  ◌≡◌, ◌≤◌, Bool, false, ◌||◌, Option, none, some, List, [], ◌∷◌, Text, codes, ltb, ◌==◌, is_empty,
  has_any, split, exists, str_eq, length, arith, if◌then◌else◌,
}

unfoldable pub is_suffix : List Text → Text → Bool
is_suffix suffixes d = exists (λ s. str_eq s d) suffixes

ends_with_hyphen : Text → Bool
ends_with_hyphen [] = false
ends_with_hyphen (c ∷ []) = c == b'-'
ends_with_hyphen (c ∷ d ∷ s) = ends_with_hyphen (d ∷ s)

starts_with_hyphen : Text → Bool
starts_with_hyphen [] = false
starts_with_hyphen (c ∷ s) = c == b'-'

-- The test of a label.
unfoldable pub is_malformed : Text → Bool
unfolding ends_with_hyphen starts_with_hyphen
is_malformed l = is_empty l || ltb 63 (length l) || starts_with_hyphen l || ends_with_hyphen l

abbrev pub illegal_bytes : Text
illegal_bytes = codes " \t\r\n/\\?#@:"

-- The checks on the normal form; none is an error.
unfoldable pub check_domain : List Text → Text → Option Text
check_domain suffixes d =
    if is_empty d
    then none
    else if ltb 253 (length d)
    then none
    else if has_any illegal_bytes d
    then none
    else if ltb (length (split b'.' d)) 2
    then none
    else if exists is_malformed (split b'.' d)
    then none
    else if is_suffix suffixes d
    then none
    else some d

-- A domain that is narrow enough to act on: it has two labels at least, all of them well formed, no
-- byte that would break an export, and it is no public suffix.
pub record IsNarrow (suffixes : List Text) (d : Text) : Type 0 where
  pub labels : 2 ≤ length (split b'.' d)
  pub formed : exists is_malformed (split b'.' d) ≡ false
  pub legal : has_any illegal_bytes d ≡ false
  pub short : length d ≤ 253
  pub narrow : is_suffix suffixes d ≡ false

pub check_domain-IsNarrow :
    (suffixes : List Text) (d : Text) {e : Text}
    → check_domain suffixes d ≡ some e
    → IsNarrow suffixes e
unfolding check_domain
check_domain-IsNarrow suffixes d {e} h = record {
  labels = ground arith;
  formed = ground arith;
  legal = ground arith;
  short = ground arith;
  narrow = ground arith;
}
