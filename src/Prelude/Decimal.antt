-- ===== src/Prelude/Decimal.antt =====
-- Decimal numbers: fmt's %d on a number, and strconv.Atoi.
use Prim.Native.Nat.{ℕ, zero, suc, ◌+◌, ◌-◌, ◌*◌, ◌/◌, ◌%◌, ◌^◌, ◌<◌}
use mathlib.Core.Path.{◌≡◌, refl, sym, ap, ◌∙◌}
use mathlib.Core.Bool.{Bool, ◌&&◌}
use mathlib.Core.Logic.{inl, inr}
use mathlib.Core.List.{[], ◌∷◌}
use mathlib.Core.Option.{Option, none, some}
use native.Mathlib.Omega.{arith}
use net_soldier.Prelude.Tests.{ltb, leb, ◌==◌, if◌then◌else◌, Bool-cases}
use net_soldier.Prelude.Lists.{every}
use net_soldier.Prelude.Strings.{Text, codes}
use net_soldier.Prelude.Int.{ℤ, pos, negsuc}

-- The digits of n, with fuel above n; the fuel is the recursion's only bound.
digits_fuel : ℕ → ℕ → Text → Text
digits_fuel zero n out = out
digits_fuel (suc f) n out =
    let rest = digits_fuel f (n / 10) ((b'0' + n % 10) ∷ out) in
    if ltb n 10 then (b'0' + n) ∷ out else rest

unfoldable pub decimal : ℕ → Text
unfolding digits_fuel
decimal n = digits_fuel (suc n) n []

-- The number that a row of digits stands for, after `acc`.
unfoldable pub value_from : ℕ → Text → ℕ
value_from acc [] = acc
value_from acc (c ∷ s) = value_from (acc * 10 + (c - b'0')) s

step_value : (n : ℕ) → n / 10 * 10 + (b'0' + n % 10 - b'0') ≡ n
step_value n = omega arith

value_from-digits_fuel :
    (f n : ℕ) (out : Text) → n < f → value_from 0 (digits_fuel f n out) ≡ value_from n out
unfolding digits_fuel value_from
value_from-digits_fuel zero n out h = absurd (omega arith)
value_from-digits_fuel (suc f) n out h = elim (Bool-cases (ltb n 10)) [
  | inl small ↦ rw small (ap (λ (k : ℕ). value_from k out) (omega arith))
  | inr large ↦ rw large (
      value_from-digits_fuel f (n / 10) ((b'0' + n % 10) ∷ out) (ground arith)
      ∙ ap (λ (k : ℕ). value_from k out) (step_value n))
]

-- The digits stand for the number.
pub value-decimal : (n : ℕ) → value_from 0 (decimal n) ≡ n
unfolding decimal value_from
value-decimal n = value_from-digits_fuel (suc n) n [] (omega arith)

pub decimal-injective : (m n : ℕ) → decimal m ≡ decimal n → m ≡ n
decimal-injective m n e =
    sym (value-decimal m) ∙ ap (λ (t : Text). value_from 0 t) e ∙ value-decimal n

is_digit : ℕ → Bool
is_digit c = leb b'0' c && leb c b'9'

-- A row of digits, at least one, with the number that it stands for.
digits_value : Text → Option ℕ
digits_value [] = none
digits_value (c ∷ s) = if every is_digit (c ∷ s) then some (value_from 0 (c ∷ s)) else none

-- strconv.Atoi: an optional sign, digits, and the range of a 64-bit int; none is its error.
positive : Option ℕ → Option ℤ
positive none = none
positive (some n) = if ltb n (2 ^ 63) then some (pos n) else none

negative : Option ℕ → Option ℤ
negative none = none
negative (some zero) = some (pos 0)
negative (some (suc n)) = if ltb n (2 ^ 63) then some (negsuc n) else none

unfoldable pub atoi : Text → Option ℤ
unfolding is_digit digits_value value_from positive negative
atoi [] = none
atoi (c ∷ s) =
    if c == b'-'
    then negative (digits_value s)
    else if c == b'+'
    then positive (digits_value s)
    else positive (digits_value (c ∷ s))

atoi_tests :
    (atoi (codes "3600") ≡ some (pos 3600))
    × (atoi (codes "-1") ≡ some (negsuc 0))
    × (atoi (codes "1e3") ≡ none)
    × (atoi (codes "9223372036854775808") ≡ none)
unfolding atoi
atoi_tests = (refl, refl, refl, refl)

-- fmt's %d on an int
pub format_int : ℤ → Text
format_int (pos n) = decimal n
format_int (negsuc n) = b'-' ∷ decimal (n + 1)
