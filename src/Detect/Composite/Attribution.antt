-- ===== src/Detect/Composite/Attribution.antt =====
-- Whose signals a composite is made of.
use net_soldier.Prelude.{
  ℕ, ◌-◌, ◌≡◌, refl, sym, arith, some, List, [], ◌∷◌, Text, leb_ℤ, leb, Bool-cases, Option-cases,
  inl, inr, map, All, All-keep, take, length, str_eq, str_eq_iff, Assoc, lookup, insert, delete,
  sort_by,
}
use net_soldier.Detect.Alert.{Alert}
use net_soldier.Detect.Composite.{
  Float64, Signal, Correlator, correlation_key, prune, upsert, evict, delete_all, age_of, older,
  observe, is_ignored, signals_after, max_tracked_clients,
}

-- A signal of the device with a key, as its alert has it.
unfoldable pub IsOf : Text → Signal → Type 0
IsOf k s =
    (correlation_key s.alert ≡ k)
    × (s.class ≡ s.alert.signal_class)
    × (s.confidence ≡ s.alert.confidence)

-- Every signal is kept under the key of its own alert.
unfoldable pub IsAttributed : Correlator → Type 0
unfolding IsOf
IsAttributed c = All (λ (p : Text × List Signal). All (IsOf p.0) p.1) c.clients

pub All-upsert :
    (P : Signal → Type 0) (sigs : List Signal) (s : Signal)
    → All P sigs
    → P s
    → All P (upsert sigs s)
unfolding upsert
All-upsert P [] s h p = (p, tt)
All-upsert P (t ∷ sigs) s h p = elim (Bool-cases (str_eq t.class s.class)) [
  | inr other ↦ rw (upsert, other) (h.0, All-upsert P sigs s h.1 p)
  | inl same ↦ elim (Bool-cases (leb_ℤ t.confidence s.confidence)) [
    | inl more ↦ rw (upsert, same, more) (p, h.1)
    | inr less ↦ rw (upsert, same, less) (h.0, h.1)
  ]
]

-- Each value of a map has a property with its key.
module _ {V : Type 0} (P : Text → V → Type 0) where
  unfoldable pub Each : Assoc V → Type 0
  Each m = All (λ (p : Text × V). P p.0 p.1) m

  pub Each-insert : (k : Text) (v : V) (m : Assoc V) → P k v → Each m → Each (insert k v m)
  unfolding Each insert
  Each-insert k v [] p h = (p, tt)
  Each-insert k v ((j, w) ∷ m) p h = elim (Bool-cases (str_eq j k)) [
    | inl same ↦ let e : j ≡ k = (str_eq_iff j k).0 same in rw (insert, same) (rw e p, h.1)
    | inr other ↦ rw (insert, other) (h.0, Each-insert k v m p h.1)
  ]

  Each-delete : (k : Text) (m : Assoc V) → Each m → Each (delete k m)
  unfolding Each delete
  Each-delete k [] h = tt
  Each-delete k ((j, w) ∷ m) h = elim (Bool-cases (str_eq j k)) [
    | inl same ↦ rw (delete, same) (Each-delete k m h.1)
    | inr other ↦ rw (delete, other) (h.0, Each-delete k m h.1)
  ]

  pub Each-lookup : (k : Text) (m : Assoc V) (v : V) → Each m → lookup k m ≡ some v → P k v
  unfolding Each lookup
  Each-lookup k [] v h e = cc
  Each-lookup k ((j, w) ∷ m) v h e = elim (Bool-cases (str_eq j k)) [
    | inl same ↦
        let found : w ≡ v = ground arith in rw (sym found, sym ((str_eq_iff j k).0 same)) h.0
    | inr other ↦ Each-lookup k m v h.1 (ground arith)
  ]

module _ (P : Text → List Signal → Type 0) where
  Each-delete_all :
      (ages : List (Text × ℕ)) (m : Assoc (List Signal)) → Each P m → Each P (delete_all ages m)
  unfolding delete_all
  Each-delete_all [] m h = h
  Each-delete_all ((client, newest) ∷ ages) m h =
      Each-delete_all ages (delete client m) (Each-delete P client m h)

  Each-evict : (m : Assoc (List Signal)) → Each P m → Each P (evict m)
  unfolding evict
  Each-evict m h = elim (Bool-cases (leb (length m) max_tracked_clients)) [
    | inl few ↦ rw (evict, few) h
    | inr many ↦
        rw (evict, many)
          (Each-delete_all (take (length m - max_tracked_clients) (sort_by older (map age_of m))) m
            h)
  ]

-- The signals of the alert's client all are of its device.
pub signals_after-IsOf :
    (now : ℕ) (a : Alert) (c : Correlator)
    → IsAttributed c
    → All (IsOf (correlation_key a)) (signals_after now a c)
unfolding signals_after prune IsOf IsAttributed Each
signals_after-IsOf now a c h = elim (Option-cases (lookup (correlation_key a) c.clients)) [
  | inl new ↦ rw (signals_after, new) (All-upsert _ _ _ tt (refl, refl, refl))
  | inr (sigs, known) ↦
      rw (signals_after, known)
        (All-upsert _ _ _
          (All-keep _ _ sigs
            (Each-lookup (λ k v. All (IsOf k) v) (correlation_key a) c.clients sigs h known))
          (refl, refl, refl))
]

-- Recording an alert keeps each signal under the key of its own alert.
pub observe-IsAttributed :
    (float : Float64) (now : ℕ) (a : Alert) (c : Correlator)
    → IsAttributed c
    → IsAttributed (observe float now a c).1
unfolding observe IsAttributed Each
observe-IsAttributed float now a c h = elim (Bool-cases (is_ignored a)) [
  | inl ignored ↦ rw (observe, ignored) h
  | inr taken ↦
      rw (observe, taken)
        (Each-evict (λ k v. All (IsOf k) v) _
          (Each-insert (λ k v. All (IsOf k) v) (correlation_key a) _ c.clients
            (signals_after-IsOf now a c h) h))
]
