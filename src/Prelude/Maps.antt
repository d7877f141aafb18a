-- ===== src/Prelude/Maps.antt =====
-- Go's `map[string]V` as an association list. The program never relies on the order of a range
-- over a map, so the order here is only that of insertion.
use Prim.Native.Nat.{◌+◌}
use mathlib.Core.Path.{◌≡◌, refl}
use mathlib.Core.Bool.{true}
use mathlib.Core.List.{List, [], ◌∷◌, ◌++◌}
use mathlib.Core.Option.{Option, none, some}
use native.Mathlib.Omega.{arith}
use net_soldier.Prelude.Tests.{if◌then◌else◌, is_some}
use net_soldier.Prelude.Lists.{length}
use net_soldier.Prelude.Strings.{Text, str_eq, str_eq_iff}

abbrev pub Assoc {ℓ} : Type ℓ → Type ℓ
Assoc V = List (Text × V)

module _ {ℓ} {V : Type ℓ} where
  -- m[k], with its `ok`
  unfoldable pub lookup : Text → Assoc V → Option V
  lookup k [] = none
  lookup k ((j, v) ∷ m) = if str_eq j k then some v else lookup k m

  -- m[k] = v
  unfoldable pub insert : Text → V → Assoc V → Assoc V
  insert k v [] = (k, v) ∷ []
  insert k v ((j, w) ∷ m) =
      let rest = insert k v m in if str_eq j k then (j, v) ∷ m else (j, w) ∷ rest

  -- delete(m, k)
  unfoldable pub delete : Text → Assoc V → Assoc V
  delete k [] = []
  delete k ((j, v) ∷ m) = let rest = delete k m in if str_eq j k then rest else (j, v) ∷ rest

  pub lookup-insert :
      (k j : Text) (v : V) (m : Assoc V)
      → lookup j (insert k v m) ≡ (if str_eq k j then some v else lookup j m)
  unfolding lookup insert
  lookup-insert k j v [] = refl
  lookup-insert k j v ((i, w) ∷ m) =
      ground (arith, str_eq_iff k j, str_eq_iff i k, str_eq_iff i j, lookup-insert k j v m)

  pub lookup-delete :
      (k j : Text) (m : Assoc V) → lookup j (delete k m) ≡ (if str_eq k j then none else lookup j m)
  unfolding lookup delete
  lookup-delete k j [] = ground arith
  lookup-delete k j ((i, w) ∷ m) =
      ground (arith, str_eq_iff k j, str_eq_iff i k, str_eq_iff i j, lookup-delete k j m)

  pub lookup-append :
      (k : Text) (m n : Assoc V)
      → lookup k (m ++ n) ≡ (if is_some (lookup k m) then lookup k m else lookup k n)
  unfolding lookup
  lookup-append k [] n = refl
  lookup-append k ((j, v) ∷ m) n = ground (arith, lookup-append k m n)

  -- Each key once.
  abbrev pub IsUnique : Assoc V → Type ℓ
  IsUnique [] = Unit
  IsUnique ((k, v) ∷ m) = (lookup k m ≡ none) × IsUnique m

  pub length-insert_old :
      (k : Text) (v : V) (m : Assoc V)
      → is_some (lookup k m) ≡ true
      → length (insert k v m) ≡ length m
  unfolding lookup insert
  length-insert_old k v [] h = ground arith
  length-insert_old k v ((j, w) ∷ m) h = ground (arith, length-insert_old k v m)

  pub length-insert_new :
      (k : Text) (v : V) (m : Assoc V) → lookup k m ≡ none → length (insert k v m) ≡ length m + 1
  unfolding lookup insert
  length-insert_new k v [] h = omega arith
  length-insert_new k v ((j, w) ∷ m) h = ground (arith, length-insert_new k v m)

  pub delete_absent : (k : Text) (m : Assoc V) → lookup k m ≡ none → delete k m ≡ m
  unfolding lookup delete
  delete_absent k [] h = refl
  delete_absent k ((j, w) ∷ m) h = ground (arith, delete_absent k m)

  pub length-delete :
      (k : Text) (m : Assoc V)
      → IsUnique m
      → is_some (lookup k m) ≡ true
      → length (delete k m) + 1 ≡ length m
  unfolding lookup delete
  length-delete k [] u h = ground arith
  length-delete k ((j, w) ∷ m) u h =
      ground (arith, str_eq_iff j k, length-delete k m, delete_absent k m)

  pub insert-IsUnique : (k : Text) (v : V) (m : Assoc V) → IsUnique m → IsUnique (insert k v m)
  unfolding lookup insert
  insert-IsUnique k v [] u = ground arith
  insert-IsUnique k v ((j, w) ∷ m) u =
      ground (arith, str_eq_iff k j, str_eq_iff j k, lookup-insert k j v m, insert-IsUnique k v m)

  pub delete-IsUnique : (k : Text) (m : Assoc V) → IsUnique m → IsUnique (delete k m)
  unfolding lookup delete
  delete-IsUnique k [] u = tt
  delete-IsUnique k ((j, w) ∷ m) u =
      ground (arith, lookup-delete k j m, delete-IsUnique k m, str_eq_iff j k, str_eq_iff k j)
