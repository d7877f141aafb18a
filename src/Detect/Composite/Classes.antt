-- ===== src/Detect/Composite/Classes.antt =====
-- distinctClasses: each class once, and only classes of the signals.
use mathlib.Core.List.{Memᴰ}
use net_soldier.Prelude.{
  ◌≡◌, refl, ap, ◌∙◌, arith, Bool, true, false, List, [], ◌∷◌, ◌++◌, Text, exists, exists-append,
  str_eq, str_eq_iff, text_less, insert_by, sort_by, Bool-cases, inl, inr, All, All-append,
  All-sort_by, if◌then◌else◌,
}
use net_soldier.Detect.Composite.{Signal, classes_loop, distinct_classes}

-- No text stands twice in the list.
abbrev pub IsUnique : List Text → Type 0
IsUnique [] = Unit
IsUnique (t ∷ ts) = (exists (λ u. str_eq u t) ts ≡ false) × IsUnique ts

str_eq_sym : (s t : Text) → str_eq s t ≡ str_eq t s
str_eq_sym s t = ground (arith, str_eq_iff s t, str_eq_iff t s)

exists-insert_by :
    (p : Text → Bool) (t : Text) (ts : List Text)
    → exists p (insert_by text_less t ts) ≡ exists p (t ∷ ts)
unfolding insert_by
exists-insert_by p t [] = ground arith
exists-insert_by p t (u ∷ us) = ground (arith, exists-insert_by p t us)

exists-sort_by : (p : Text → Bool) (ts : List Text) → exists p (sort_by text_less ts) ≡ exists p ts
unfolding sort_by
exists-sort_by p [] = refl
exists-sort_by p (t ∷ ts) =
    exists-insert_by p t (sort_by text_less ts)
    ∙ ap (λ b. if p t then true else b) (exists-sort_by p ts)

IsUnique-insert_by :
    (t : Text) (ts : List Text)
    → exists (λ u. str_eq u t) ts ≡ false
    → IsUnique ts
    → IsUnique (insert_by text_less t ts)
unfolding insert_by
IsUnique-insert_by t [] h u = (refl, tt)
IsUnique-insert_by t (v ∷ vs) h u = elim (Bool-cases (text_less v t)) [
  | inr here ↦ rw (insert_by, here) (h, u)
  | inl later ↦
      let rest : exists (λ w. str_eq w t) vs ≡ false = ground arith in
      let other : str_eq t v ≡ false = ground (arith, str_eq_sym t v) in
      rw (insert_by, later)
        (
          exists-insert_by (λ w. str_eq w v) t vs ∙ ground (arith, u.0, other),
          IsUnique-insert_by t vs rest u.1,
        )
]

IsUnique-sort_by : (ts : List Text) → IsUnique ts → IsUnique (sort_by text_less ts)
unfolding sort_by
IsUnique-sort_by [] u = tt
IsUnique-sort_by (t ∷ ts) u =
    IsUnique-insert_by t (sort_by text_less ts) (exists-sort_by (λ w. str_eq w t) ts ∙ u.0)
      (IsUnique-sort_by ts u.1)

IsUnique-append :
    (ts : List Text) (t : Text)
    → exists (λ u. str_eq u t) ts ≡ false
    → IsUnique ts
    → IsUnique (ts ++ t ∷ [])
IsUnique-append [] t h u = (refl, tt)
IsUnique-append (v ∷ vs) t h u =
    let rest : exists (λ w. str_eq w t) vs ≡ false = ground arith in
    let other : str_eq t v ≡ false = ground (arith, str_eq_sym t v) in
    (
      exists-append (λ w. str_eq w v) vs (t ∷ []) ∙ ground (arith, u.0, other),
      IsUnique-append vs t rest u.1,
    )

IsUnique-classes_loop :
    (sigs : List Signal) (classes : List Text)
    → IsUnique classes
    → IsUnique (classes_loop classes sigs)
unfolding classes_loop
IsUnique-classes_loop [] classes u = u
IsUnique-classes_loop (s ∷ sigs) classes u =
    elim (Bool-cases (exists (λ c. str_eq c s.class) classes)) [
      | inl seen ↦ rw (classes_loop, seen) (IsUnique-classes_loop sigs classes u)
      | inr new ↦
          rw (classes_loop, new)
            (IsUnique-classes_loop sigs _ (IsUnique-append classes s.class new u))
    ]

pub distinct_classes-IsUnique : (sigs : List Signal) → IsUnique (distinct_classes sigs)
unfolding distinct_classes
distinct_classes-IsUnique sigs =
    IsUnique-sort_by (classes_loop [] sigs) (IsUnique-classes_loop sigs [] tt)

pub All-classes_loop :
    (P : Text → Type 0) (sigs : List Signal) (classes : List Text)
    → All P classes
    → All (λ (s : Signal). P s.class) sigs
    → All P (classes_loop classes sigs)
unfolding classes_loop
All-classes_loop P [] classes h k = h
All-classes_loop P (s ∷ sigs) classes h k =
    elim (Bool-cases (exists (λ c. str_eq c s.class) classes)) [
      | inl seen ↦ rw (classes_loop, seen) (All-classes_loop P sigs classes h k.1)
      | inr new ↦
          rw (classes_loop, new)
            (All-classes_loop P sigs _ (All-append P classes (s.class ∷ []) h (k.0, tt)) k.1)
    ]

-- What each element has that is in the list.
pub All-from : {A : Type 0} (P : A → Type 0) (xs : List A) → ((x : A) → Memᴰ x xs → P x) → All P xs
All-from P [] f = tt
All-from P (x ∷ xs) f = (f x (Memᴰ.head refl), All-from P xs (λ y m. f y (Memᴰ.tail m)))

-- A class that one of the signals has.
unfoldable pub IsClassOf : List Signal → Text → Type 0
IsClassOf sigs cl = (s : Signal) × Memᴰ s sigs × (s.class ≡ cl)

pub distinct_classes-IsClassOf : (sigs : List Signal) → All (IsClassOf sigs) (distinct_classes sigs)
unfolding distinct_classes IsClassOf
distinct_classes-IsClassOf sigs =
    All-sort_by _ text_less _
      (All-classes_loop _ sigs [] tt (All-from _ sigs (λ s m. (s, m, refl))))
