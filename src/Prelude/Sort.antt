-- ===== src/Prelude/Sort.antt =====
-- Go's sort.Strings, and sort.Slice, which leaves open the order of the elements that are
-- neither less nor greater: here those keep their order.
use Prim.Native.Nat.{ℕ, suc}
use mathlib.Core.Path.{◌≡◌, refl, ◌∙◌, ap}
use mathlib.Core.Logic.{inl, inr}
use mathlib.Core.Bool.{Bool, true, false}
use mathlib.Core.List.{List, [], ◌∷◌}
use native.Mathlib.Omega.{arith}
use net_soldier.Prelude.Tests.{ltb, ◌==◌, if◌then◌else◌, Bool-cases}
use net_soldier.Prelude.Lists.{length, All}
use net_soldier.Prelude.Strings.{Text, codes}

-- s < t, byte by byte
unfoldable pub text_less : Text → Text → Bool
text_less s [] = false
text_less [] (d ∷ t) = true
text_less (c ∷ s) (d ∷ t) =
    let rest = text_less s t in if ltb c d then true else if c == d then rest else false

module _ {ℓ} {A : Type ℓ} (less : A → A → Bool) where
  unfoldable pub insert_by : A → List A → List A
  insert_by x [] = x ∷ []
  insert_by x (y ∷ ys) = let rest = insert_by x ys in if less y x then y ∷ rest else x ∷ y ∷ ys

  unfoldable pub sort_by : List A → List A
  unfolding insert_by
  sort_by [] = []
  sort_by (x ∷ xs) = insert_by x (sort_by xs)

  length-insert_by : (x : A) (ys : List A) → length (insert_by x ys) ≡ suc (length ys)
  unfolding insert_by
  length-insert_by x [] = refl
  length-insert_by x (y ∷ ys) = ground (arith, length-insert_by x ys)

  pub length-sort_by : (xs : List A) → length (sort_by xs) ≡ length xs
  unfolding sort_by
  length-sort_by [] = refl
  length-sort_by (x ∷ xs) =
      length-insert_by x (sort_by xs) ∙ ap (λ (n : ℕ). suc n) (length-sort_by xs)

module _ {ℓ κ} {A : Type ℓ} (P : A → Type κ) (less : A → A → Bool) where
  All-insert_by : (x : A) (ys : List A) → P x → All P ys → All P (insert_by less x ys)
  unfolding insert_by
  All-insert_by x [] p h = (p, h)
  All-insert_by x (y ∷ ys) p h = elim (Bool-cases (less y x)) [
    | inl later ↦ rw later (h.0, All-insert_by x ys p h.1)
    | inr here ↦ rw here (p, (h.0, h.1))
  ]

  pub All-sort_by : (xs : List A) → All P xs → All P (sort_by less xs)
  unfolding sort_by
  All-sort_by [] h = h
  All-sort_by (x ∷ xs) h = All-insert_by x (sort_by less xs) h.0 (All-sort_by xs h.1)

sort_by_tests :
    sort_by text_less (codes "tls" ∷ codes "ioc" ∷ codes "ids" ∷ [])
    ≡ codes "ids" ∷ codes "ioc" ∷ codes "tls" ∷ []
unfolding sort_by text_less
sort_by_tests = refl
