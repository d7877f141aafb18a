-- ===== src/Prelude/Int.antt =====
-- Go's `int`, which the program compares, and `time.Duration`, whose product wraps at 64 bits.
use Prim.Native.Nat.{ℕ, ◌+◌, ◌-◌, ◌%◌, ◌^◌}
use mathlib.Core.Path.{◌≡◌, refl}
use mathlib.Core.Bool.{Bool, true, false}
use native.Mathlib.Omega.{arith}
use net_soldier.Prelude.Tests.{ltb, leb, if◌then◌else◌}

-- `negsuc n` is -(n + 1).
pub data ℤ : Type 0 where
  pos : ℕ → ℤ
  negsuc : ℕ → ℤ

abbrev pub leb_ℤ : ℤ → ℤ → Bool
leb_ℤ (pos a) (pos b) = leb a b
leb_ℤ (pos a) (negsuc b) = false
leb_ℤ (negsuc a) (pos b) = true
leb_ℤ (negsuc a) (negsuc b) = leb b a

abbrev pub ltb_ℤ : ℤ → ℤ → Bool
ltb_ℤ (pos a) (pos b) = ltb a b
ltb_ℤ (pos a) (negsuc b) = false
ltb_ℤ (negsuc a) (pos b) = true
ltb_ℤ (negsuc a) (negsuc b) = ltb b a

-- A 64-bit pattern read as a signed number.
abbrev pub signed64 : ℕ → ℤ
signed64 n = let m = n % 2 ^ 64 in if ltb m (2 ^ 63) then pos m else negsuc (2 ^ 64 - 1 - m)

-- n + z, for a number n
unfoldable pub add_to : ℕ → ℤ → ℤ
add_to n (pos m) = pos (n + m)
add_to n (negsuc m) = if ltb m n then pos (n - 1 - m) else negsuc (m - n)

pub leb_ℤ_refl : (a : ℤ) → leb_ℤ a a ≡ true
leb_ℤ_refl (pos n) = ground arith
leb_ℤ_refl (negsuc n) = ground arith

pub ltb→leb : (a b : ℤ) → ltb_ℤ a b ≡ true → leb_ℤ a b ≡ true
ltb→leb (pos a) (pos b) h = ground arith
ltb→leb (pos a) (negsuc b) h = cc
ltb→leb (negsuc a) (pos b) h = refl
ltb→leb (negsuc a) (negsuc b) h = ground arith

pub not_ltb→leb : (a b : ℤ) → ltb_ℤ a b ≡ false → leb_ℤ b a ≡ true
not_ltb→leb (pos a) (pos b) h = ground arith
not_ltb→leb (pos a) (negsuc b) h = refl
not_ltb→leb (negsuc a) (pos b) h = cc
not_ltb→leb (negsuc a) (negsuc b) h = ground arith

pub leb_ℤ_trans : (a b c : ℤ) → leb_ℤ a b ≡ true → leb_ℤ b c ≡ true → leb_ℤ a c ≡ true
leb_ℤ_trans (pos a) (pos b) (pos c) h k = ground arith
leb_ℤ_trans (pos a) (pos b) (negsuc c) h k = cc
leb_ℤ_trans (pos a) (negsuc b) c h k = cc
leb_ℤ_trans (negsuc a) b (pos c) h k = refl
leb_ℤ_trans (negsuc a) (pos b) (negsuc c) h k = cc
leb_ℤ_trans (negsuc a) (negsuc b) (negsuc c) h k = ground arith
