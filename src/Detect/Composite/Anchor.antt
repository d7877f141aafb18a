-- ===== src/Detect/Composite/Anchor.antt =====
-- The alert that a composite takes its context from.
use mathlib.Core.List.{Memᴰ}
use net_soldier.Prelude.{
  ℕ, ◌≡◌, refl, ap, ◌∙◌, sym, arith, true, false, some, List, [], ◌∷◌, Text, ltb_ℤ, is_empty,
  is_some, if◌then◌else◌, Bool-cases, Option-cases, inl, inr, ◌⊎◌, ◌≢◌, none, All, All-sort_by,
  str_eq_refl, Assoc, lookup, insert, lookup-insert, text_less,
}
use net_soldier.Detect.Alert.{Alert}
use net_soldier.Detect.Composite.{
  Float64, Signal, Correlator, correlation_key, is_better, best_loop, best_per_class,
  distinct_classes, prune, best_of, strongest, build, composite_of, observe, signals_after,
}
use net_soldier.Detect.Composite.Classes.{All-classes_loop, All-from}
use net_soldier.Detect.Composite.Attribution.{
  IsOf, IsAttributed, All-upsert, Each, Each-insert, Each-lookup, signals_after-IsOf,
  observe-IsAttributed,
}
use net_soldier.Detect.Composite.Confidence.{observe-some, if_confident-some}

-- A class that is found stays found, and the class of each signal is.
best_step-keeps :
    (k : Text) (s : Signal) (best : Assoc Signal)
    → is_some (lookup k best) ≡ true
    → is_some (lookup k (if is_better s (lookup s.class best) then insert s.class s best else best))
      ≡ true
best_step-keeps k s best h = ground (arith, lookup-insert s.class k s best)

best_step-has :
    (s : Signal) (best : Assoc Signal)
    → is_some
        (lookup s.class (if is_better s (lookup s.class best) then insert s.class s best else best))
      ≡ true
unfolding is_better
best_step-has s best = ground (arith, lookup-insert s.class s.class s best, str_eq_refl s.class)

best_loop-keeps :
    (k : Text) (sigs : List Signal) (best : Assoc Signal)
    → is_some (lookup k best) ≡ true
    → is_some (lookup k (best_loop best sigs)) ≡ true
unfolding best_loop
best_loop-keeps k [] best h = h
best_loop-keeps k (s ∷ sigs) best h = best_loop-keeps k sigs _ (best_step-keeps k s best h)

best_loop-has :
    (sigs : List Signal) (best : Assoc Signal)
    → All (λ (s : Signal). is_some (lookup s.class (best_loop best sigs)) ≡ true) sigs
unfolding best_loop
best_loop-has [] best = tt
best_loop-has (s ∷ sigs) best =
    (best_loop-keeps s.class sigs _ (best_step-has s best), best_loop-has sigs _)

-- Every class that is listed has a best signal.
distinct_classes-have :
    (sigs : List Signal)
    → All (λ (c : Text). is_some (lookup c (best_per_class sigs)) ≡ true) (distinct_classes sigs)
unfolding distinct_classes best_per_class
distinct_classes-have sigs =
    All-sort_by _ text_less _ (All-classes_loop _ sigs [] tt (best_loop-has sigs []))

module _ (P : Signal → Type 0) where
  Each-best_loop :
      (sigs : List Signal) (best : Assoc Signal)
      → All P sigs
      → Each (λ k. P) best
      → Each (λ k. P) (best_loop best sigs)
  unfolding best_loop
  Each-best_loop [] best h b = b
  Each-best_loop (s ∷ sigs) best h b = elim (Bool-cases (is_better s (lookup s.class best))) [
    | inl more ↦
        rw (best_loop, more) (Each-best_loop sigs _ h.1 (Each-insert (λ k. P) s.class s best h.0 b))
    | inr less ↦ rw (best_loop, less) (Each-best_loop sigs best h.1 b)
  ]

  best_of-P :
      (cl : Text) (best : Assoc Signal)
      → Each (λ k. P) best
      → is_some (lookup cl best) ≡ true
      → P (best_of best cl)
  unfolding best_of
  best_of-P cl best b h = elim (Option-cases (lookup cl best)) [
    | inl missing ↦ absurd (ground arith)
    | inr (s, found) ↦ rw (best_of, found) (Each-lookup (λ k. P) cl best s b found)
  ]

All-implies :
    {A : Type 0} (P Q : A → Type 0) (xs : List A) → ((x : A) → P x → Q x) → All P xs → All Q xs
All-implies P Q [] f h = tt
All-implies P Q (x ∷ xs) f h = (f x h.0, All-implies P Q xs f h.1)

All-strongest :
    (Q : Alert → Type 0) (best : Assoc Signal) (classes : List Text) (anchor : Alert)
    → Q anchor
    → All (λ (c : Text). Q (best_of best c).alert) classes
    → Q (strongest best anchor classes)
unfolding strongest
All-strongest Q best [] anchor q h = q
All-strongest Q best (cl ∷ cls) anchor q h =
    elim (Bool-cases (ltb_ℤ anchor.confidence (best_of best cl).confidence)) [
      | inl more ↦ rw (strongest, more) (All-strongest Q best cls _ h.0 h.1)
      | inr less ↦ rw (strongest, less) (All-strongest Q best cls anchor q h.1)
    ]

-- The signals that the correlator holds of a device.
unfoldable pub held : Text → Correlator → List Signal
held k c = elim (lookup k c.clients) [ none ↦ [] | some sigs ↦ sigs ]

-- Whether an alert is the one that came, or that of a signal of its device which is held and still in
-- the window.
unfoldable pub IsKnown : ℕ → Alert → Correlator → Alert → Type 0
unfolding held
IsKnown now a c x =
    (x ≡ a)
    ⊎ ((s : Signal) × Memᴰ s (prune c.window now (held (correlation_key a) c)) × (x ≡ s.alert))

-- What a composite takes from one alert.
unfoldable pub IsFrom : (Alert → Type 0) → Alert → Alert → Type 0
IsFrom Q trigger comp =
    (x : Alert) × Q x
    × (comp.domain ≡ x.domain)
    × (comp.matched_ioc ≡ x.matched_ioc)
    × (comp.ioc_type ≡ x.ioc_type)
    × (comp.threat ≡ x.threat)
    × (comp.client_mac ≡ (if is_empty trigger.client_mac then x.client_mac else trigger.client_mac))

composite_of-IsFrom :
    (float : Float64) (a : Alert) (sigs : List Signal) (classes : List Text) (now : ℕ)
    (comp : Alert) (Q : Alert → Type 0)
    → All (λ (s : Signal). Q s.alert) sigs
    → All (λ (c : Text). is_some (lookup c (best_per_class sigs)) ≡ true) classes
    → composite_of float a sigs classes now ≡ some comp
    → IsFrom Q a comp
unfolding composite_of build IsFrom best_per_class Each
composite_of-IsFrom float a sigs [] now comp Q h c e = cc
composite_of-IsFrom float a sigs (cl ∷ []) now comp Q h c e = cc
composite_of-IsFrom float a sigs (cl ∷ cl' ∷ cls) now comp Q h c e =
    let best = best_per_class sigs in
    let classes = cl ∷ cl' ∷ cls in
    let P : Signal → Type 0 = λ s. Q s.alert in
    let ofs : Each (λ j. P) best = Each-best_loop P sigs [] h tt in
    let of_class : (d : Text) → is_some (lookup d best) ≡ true → Q (best_of best d).alert =
      λ d found. best_of-P P d best ofs found in
    let same = if_confident-some (build float a sigs cl (cl' ∷ cls) now) comp e in
    let anchor = strongest best (best_of best cl).alert classes in
    let one : Q anchor =
      All-strongest Q best classes (best_of best cl).alert (of_class cl c.0)
        (All-implies _ _ classes of_class c) in
    rw (sym same.0) (anchor, one, refl, refl, refl, refl, refl)

-- Nothing but the alert and what was held of its device is among the signals.
pub signals_after-IsKnown :
    (now : ℕ) (a : Alert) (c : Correlator)
    → All (λ (s : Signal). IsKnown now a c s.alert) (signals_after now a c)
unfolding signals_after IsKnown held
signals_after-IsKnown now a c =
    All-upsert _ (prune c.window now (held (correlation_key a) c)) _
      (All-from _ _ (λ s m. inr (s, m, refl))) (inl refl)

is_empty→[] : (t : Text) → is_empty t ≡ true → t ≡ []
unfolding is_empty
is_empty→[] [] h = refl
is_empty→[] (c ∷ t) h = cc

-- The key of an alert without a MAC is the key of no alert with one.
first_byte : Text → ℕ
first_byte [] = 0
first_byte (c ∷ t) = c

without_mac : (a : Alert) → is_empty a.client_mac ≡ true → first_byte (correlation_key a) ≢ 109
unfolding correlation_key first_byte
without_mac a h = elim (Bool-cases (is_empty a.client_ip)) [
  | inl none_at_all ↦ rw (correlation_key, h, none_at_all) (λ e. omega arith)
  | inr ip ↦ rw (correlation_key, h, ip) (λ e. omega arith)
]

with_mac : (x : Alert) → is_empty x.client_mac ≡ false → first_byte (correlation_key x) ≡ 109
unfolding correlation_key first_byte
with_mac x h = rw (correlation_key, h) refl

same_mac :
    (a x : Alert)
    → correlation_key x ≡ correlation_key a
    → (if is_empty a.client_mac then x.client_mac else a.client_mac) ≡ a.client_mac
same_mac a x h = elim (Bool-cases (is_empty a.client_mac)) [
  | inr known ↦ rw known refl
  | inl unknown ↦ elim (Bool-cases (is_empty x.client_mac)) [
    | inl neither ↦ rw unknown (is_empty→[] _ neither ∙ sym (is_empty→[] _ unknown))
    | inr other ↦ absurd (without_mac a unknown (sym (ap first_byte h) ∙ with_mac x other))
  ]
]

All-both :
    {A : Type 0} (P Q : A → Type 0) (xs : List A)
    → All P xs
    → All Q xs
    → All (λ (x : A). P x × Q x) xs
All-both P Q [] h k = tt
All-both P Q (x ∷ xs) h k = ((h.0, k.0), All-both P Q xs h.1 k.1)

-- A composite that an alert triggers names the device of that alert, by its MAC, and takes its domain,
-- indicator and threat from one alert on the same device, the triggering one or that of a signal
-- which the correlator held of the device
-- and which is still in the window: signals of two devices never mix. It needs that each
-- signal is kept under the key of its own alert, which recording an alert keeps.
pub composite_of_one_device :
    (float : Float64) (now : ℕ) (a : Alert) (c : Correlator) (comp : Alert)
    → IsAttributed c
    → (observe float now a c).0 ≡ some comp
    → (comp.client_mac ≡ a.client_mac)
      × ((x : Alert) × IsKnown now a c x
          × (correlation_key x ≡ correlation_key a)
          × (comp.domain ≡ x.domain)
          × (comp.matched_ioc ≡ x.matched_ioc)
          × (comp.threat ≡ x.threat))
      × IsAttributed (observe float now a c).1
unfolding IsFrom IsOf
composite_of_one_device float now a c comp h e =
    let sigs = signals_after now a c in
    let both = All-both _ _ sigs (signals_after-IsKnown now a c) (signals_after-IsOf now a c h) in
    let (x, (known, key), domain, ioc, kind, threat, mac) =
      composite_of-IsFrom float a sigs (distinct_classes sigs) now comp
        (λ x. IsKnown now a c x × (correlation_key x ≡ correlation_key a))
        (All-implies _ _ sigs (λ s p. (p.0, p.1.0)) both) (distinct_classes-have sigs)
        (observe-some float now a c comp e) in
    (
      mac ∙ same_mac a x key,
      (x, known, key, domain, ioc, threat),
      observe-IsAttributed float now a c h,
    )
