-- ===== src/Intel/Indicators.antt =====
-- apps/threat-intel-sync/internal/ioc/store.go: the store of the indicators, a map from the key. A
-- method holds the mutex, and a snapshot is the map's values.
pub mod Upserts
pub mod Pruning
use net_soldier.Prelude.{
  ℕ, ◌+◌, Bool, true, false, Option, none, some, List, [], ◌∷◌, Text, Assoc, lookup, insert,
  is_some, ltb, length, str_eq, keep, if◌then◌else◌,
}
use net_soldier.Intel.Indicator.{Indicator, key, merge}
use net_soldier.Net.Ip.{IpParser}
use net_soldier.Intel.Validate.{validate}

-- Store.items
abbrev pub Items : Type 0
Items = Assoc Indicator

put : Indicator → Option Indicator → Items → Items
put i none m = insert (key i) i m
put i (some existing) m = insert (key i) (merge existing i) m

-- Upsert
unfoldable pub upsert : Indicator → Items → Items
unfolding put
upsert i m = put i (lookup (key i) m) m

-- What UpsertAll leaves, and how many it accepted and rejected.
pub record Batch : Type 0 where
  pub items : Items
  pub accepted : ℕ
  pub rejected : ℕ

step : Option Indicator → Batch → Batch
step none b = record b { rejected = b.rejected + 1 }
step (some valid) b = record b { items = upsert valid b.items; accepted = b.accepted + 1 }

upsert_loop : IpParser → List Indicator → Batch → Batch
unfolding step
upsert_loop net [] b = b
upsert_loop net (i ∷ is) b = upsert_loop net is (step (validate net i) b)

-- UpsertAll
unfoldable pub upsert_all : IpParser → List Indicator → Items → Batch
unfolding upsert_loop
upsert_all net is m = upsert_loop net is (record { items = m; accepted = 0; rejected = 0 })

older : ℕ → Option ℕ → Bool
older cutoff none = false
older cutoff (some t) = ltb t cutoff

-- Whether PruneBefore drops an indicator: by its last sighting, or its first where it has no last.
unfoldable pub stale : ℕ → Indicator → Bool
unfolding older
stale cutoff i = older cutoff (if is_some i.last_seen then i.last_seen else i.first_seen)

-- PruneBefore: what is left, and how many were dropped.
unfoldable pub prune_before : ℕ → Items → Items × ℕ
unfolding stale
prune_before cutoff [] = ([], 0)
prune_before cutoff ((k, i) ∷ m) =
    let (left, removed) = prune_before cutoff m in
    if stale cutoff i then (left, removed + 1) else ((k, i) ∷ left, removed)

-- All
unfoldable pub all_items : Items → List Indicator
all_items [] = []
all_items ((k, i) ∷ m) = i ∷ all_items m

-- ByType
unfoldable pub by_type : Text → Items → List Indicator
unfolding all_items
by_type kind m = keep (λ i. str_eq i.kind kind) (all_items m)
