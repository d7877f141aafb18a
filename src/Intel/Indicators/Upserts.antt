-- ===== src/Intel/Indicators/Upserts.antt =====
-- What a batch of a feed leaves in the store.
use mathlib.Core.List.{Memᴰ}
use net_soldier.Prelude.{
  ◌+◌, ◌≡◌, refl, sym, ◌∙◌, inl, inr, true, Option, none, some, List, [], ◌∷◌, arith, Text, ℤ,
  leb_ℤ, ltb_ℤ, leb_ℤ_refl, ltb→leb, not_ltb→leb, leb_ℤ_trans, lookup, insert, lookup-insert,
  IsUnique, insert-IsUnique, str_eq, str_eq_iff, str_eq_refl, length, Bool-cases, Option-cases,
}
use net_soldier.Intel.Indicator.{Indicator, key, merge}
use net_soldier.Net.Ip.{IpParser}
use net_soldier.Intel.Validate.{validate}
use net_soldier.Intel.Validate.Breadth.{IsAdmissible, validate-IsAdmissible}
use net_soldier.Intel.Indicators.{Items, upsert, put, Batch, step, upsert_loop, upsert_all}

-- Keys are unique and those of their indicators, all of which are admissible.
pub record IsTrusted (m : Items) : Type 0 where
  pub unique : IsUnique m
  pub keyed : (k : Text) (i : Indicator) → lookup k m ≡ some i → key i ≡ k
  pub admissible : (k : Text) (i : Indicator) → lookup k m ≡ some i → IsAdmissible i

merge-IsAdmissible :
    (i other : Indicator) → IsAdmissible i → IsAdmissible other → IsAdmissible (merge i other)
unfolding merge
merge-IsAdmissible i other a b = record {
  low = ground (arith, a.low, b.low);
  high = ground (arith, a.high, b.high);
  domain = a.domain;
}

key-merge : (i other : Indicator) → key (merge i other) ≡ key i
unfolding merge key
key-merge i other = refl

insert-IsTrusted :
    (i : Indicator) (k : Text) (m : Items)
    → key i ≡ k
    → IsAdmissible i
    → IsTrusted m
    → IsTrusted (insert k i m)
insert-IsTrusted i k m e a t = record {
  unique = insert-IsUnique k i m t.unique;
  keyed = λ j b at. ground (arith, lookup-insert k j i m, t.keyed j b, str_eq_iff k j, e);
  admissible = λ j b at. elim (Bool-cases (str_eq k j)) [
    | inl same ↦ let own : i ≡ b = ground (arith, lookup-insert k j i m) in rw (← own) a
    | inr other ↦ t.admissible j b (ground (arith, lookup-insert k j i m))
  ];
}

upsert-IsTrusted :
    (i : Indicator) (m : Items) → IsAdmissible i → IsTrusted m → IsTrusted (upsert i m)
unfolding upsert
upsert-IsTrusted i m a t = elim (Option-cases (lookup (key i) m)) [
  | inl e ↦ rw (e, put) (insert-IsTrusted i (key i) m refl a t)
  | inr (old, e) ↦
      rw (e, put)
        (insert-IsTrusted (merge old i) (key i) m (key-merge old i ∙ t.keyed (key i) old e)
          (merge-IsAdmissible old i (t.admissible (key i) old e) a) t)
]

loop-IsTrusted :
    (net : IpParser) (is : List Indicator) (b : Batch)
    → IsTrusted b.items
    → IsTrusted (upsert_loop net is b).items
unfolding upsert_loop
loop-IsTrusted net [] b t = t
loop-IsTrusted net (i ∷ is) b t = elim (Option-cases (validate net i)) [
  | inl e ↦ rw (e, upsert_loop, step) (loop-IsTrusted net is (step none b) t)
  | inr (v, e) ↦
      rw (e, upsert_loop, step)
        (loop-IsTrusted net is (step (some v) b)
          (upsert-IsTrusted v b.items (validate-IsAdmissible net i e) t))
]

step_counts :
    (o : Option Indicator) (b : Batch)
    → (step o b).accepted + (step o b).rejected ≡ b.accepted + b.rejected + 1
unfolding step
step_counts none b = omega arith
step_counts (some v) b = omega arith

loop_counts :
    (net : IpParser) (is : List Indicator) (b : Batch)
    → (upsert_loop net is b).accepted + (upsert_loop net is b).rejected
      ≡ b.accepted + b.rejected + length is
unfolding upsert_loop
loop_counts net [] b = omega arith
loop_counts net (i ∷ is) b =
    omega (arith, loop_counts net is (step (validate net i) b), step_counts (validate net i) b)

-- Whatever a feed delivers, a trusted store stays so, and each row of the batch is counted once.
pub upsert_all-IsTrusted :
    (net : IpParser) (is : List Indicator) (m : Items)
    → IsTrusted m
    → IsTrusted (upsert_all net is m).items
      × ((upsert_all net is m).accepted + (upsert_all net is m).rejected ≡ length is)
unfolding upsert_all
upsert_all-IsTrusted net is m t =
    let start : Batch = record { items = m; accepted = 0; rejected = 0 } in
    (loop-IsTrusted net is start t, omega (arith, loop_counts net is start))

-- An item under a key, of a confidence at least.
abbrev pub Holds : Text → ℤ → Items → Type 0
Holds k confidence m =
    (i : Indicator) × (lookup k m ≡ some i) × (leb_ℤ confidence i.confidence ≡ true)

confidence-merge :
    (i other : Indicator)
    → (leb_ℤ i.confidence (merge i other).confidence ≡ true)
      × (leb_ℤ other.confidence (merge i other).confidence ≡ true)
unfolding merge
confidence-merge i other = elim (Bool-cases (ltb_ℤ i.confidence other.confidence)) [
  | inl less ↦ rw less (ltb→leb i.confidence other.confidence less, leb_ℤ_refl other.confidence)
  | inr more ↦ rw more (leb_ℤ_refl i.confidence, not_ltb→leb i.confidence other.confidence more)
]

upsert-Holds_new : (i : Indicator) (m : Items) → Holds (key i) i.confidence (upsert i m)
unfolding upsert
upsert-Holds_new i m = elim (Option-cases (lookup (key i) m)) [
  | inl e ↦
      rw (e, put)
        (
          i,
          rw (lookup-insert (key i) (key i) i m, str_eq_refl (key i)) refl,
          leb_ℤ_refl i.confidence,
        )
  | inr (old, e) ↦
      rw (e, put)
        (
          merge old i,
          rw (lookup-insert (key i) (key i) (merge old i) m, str_eq_refl (key i)) refl,
          (confidence-merge old i).1,
        )
]

upsert-Holds : (i : Indicator) (m : Items) (k : Text) (c : ℤ) → Holds k c m → Holds k c (upsert i m)
unfolding upsert
upsert-Holds i m k c (a, found, le) = elim (Bool-cases (str_eq (key i) k)) [
  | inl same ↦
      let e : lookup (key i) m ≡ some a = rw ((str_eq_iff (key i) k).0 same) found in
      rw (e, put)
        (
          merge a i,
          rw (lookup-insert (key i) k (merge a i) m, same) refl,
          leb_ℤ_trans c a.confidence (merge a i).confidence le (confidence-merge a i).0,
        )
  | inr other ↦ elim (Option-cases (lookup (key i) m)) [
    | inl e ↦ rw (e, put) (a, rw (lookup-insert (key i) k i m, other) found, le)
    | inr (old, e) ↦ rw (e, put) (a, rw (lookup-insert (key i) k (merge old i) m, other) found, le)
  ]
]

step-Holds :
    (o : Option Indicator) (b : Batch) (k : Text) (c : ℤ)
    → Holds k c b.items
    → Holds k c (step o b).items
unfolding step
step-Holds none b k c h = h
step-Holds (some v) b k c h = upsert-Holds v b.items k c h

loop-Holds :
    (net : IpParser) (is : List Indicator) (b : Batch) (k : Text) (c : ℤ)
    → Holds k c b.items
    → Holds k c (upsert_loop net is b).items
unfolding upsert_loop
loop-Holds net [] b k c h = h
loop-Holds net (i ∷ is) b k c h =
    loop-Holds net is (step (validate net i) b) k c (step-Holds (validate net i) b k c h)

step_accepts :
    (o : Option Indicator) (b : Batch) (v : Indicator)
    → o ≡ some v
    → Holds (key v) v.confidence (step o b).items
unfolding step
step_accepts none b v e = cc
step_accepts (some u) b v e =
    let same : u ≡ v = ground arith in rw (← same) (upsert-Holds_new u b.items)

loop_accepts :
    (net : IpParser) (is : List Indicator) (b : Batch) (i v : Indicator)
    → Memᴰ i is
    → validate net i ≡ some v
    → Holds (key v) v.confidence (upsert_loop net is b).items
unfolding upsert_loop
loop_accepts net [] b i v m e = elim m [ ]
loop_accepts net (j ∷ is) b i v (Memᴰ.head same) e =
    loop-Holds net is (step (validate net j) b) (key v) v.confidence
      (step_accepts (validate net j) b v (rw (sym same) e))
loop_accepts net (j ∷ is) b i v (Memᴰ.tail m) e =
    loop_accepts net is (step (validate net j) b) i v m e

-- Every row of a batch that validation accepts is in the store afterwards, under its key and with
-- its confidence at least, whatever else the batch holds.
pub upsert_all_keeps :
    (net : IpParser) (is : List Indicator) (m : Items) (i v : Indicator)
    → Memᴰ i is
    → validate net i ≡ some v
    → Holds (key v) v.confidence (upsert_all net is m).items
unfolding upsert_all
upsert_all_keeps net is m i v at e = loop_accepts net is _ i v at e
