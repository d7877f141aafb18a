-- ===== src/Intel/Indicators/Pruning.antt =====
-- What PruneBefore leaves.
use net_soldier.Prelude.{
  ℕ, ◌+◌, ◌≡◌, refl, Option, none, some, [], ◌∷◌, arith, Text, lookup, IsUnique, str_eq_iff, length,
  if◌then◌else◌,
}
use net_soldier.Intel.Indicator.{Indicator}
use net_soldier.Intel.Indicators.{Items, stale, prune_before}

-- What is left of an entry.
abbrev pub fresh_only : ℕ → Option Indicator → Option Indicator
fresh_only cutoff none = none
fresh_only cutoff (some i) = if stale cutoff i then none else some i

lookup-prune :
    (cutoff : ℕ) (m : Items) (k : Text)
    → IsUnique m
    → lookup k (prune_before cutoff m).0 ≡ fresh_only cutoff (lookup k m)
unfolding prune_before lookup
lookup-prune cutoff [] k u = refl
lookup-prune cutoff ((j, i) ∷ m) k u =
    ground (arith, str_eq_iff j k, lookup-prune cutoff m k u.1, u.0)

length-prune :
    (cutoff : ℕ) (m : Items)
    → length (prune_before cutoff m).0 + (prune_before cutoff m).1 ≡ length m
unfolding prune_before
length-prune cutoff [] = omega arith
length-prune cutoff ((j, i) ∷ m) = ground (arith, length-prune cutoff m)

-- Pruning a store of unique keys drops the indicators that are stale, keeps every other one as it
-- is, and counts those that it dropped.
pub prune_before_lem :
    (cutoff : ℕ) (m : Items) (k : Text)
    → IsUnique m
    → (lookup k (prune_before cutoff m).0 ≡ fresh_only cutoff (lookup k m))
      × (length (prune_before cutoff m).0 + (prune_before cutoff m).1 ≡ length m)
prune_before_lem cutoff m k u = (lookup-prune cutoff m k u, length-prune cutoff m)
