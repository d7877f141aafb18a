-- ===== src/Prelude/Strings.antt =====
-- Go strings as lists of bytes, and what the program uses of the package `strings`. Case and
-- white space are those of ASCII, where Go's are those of Unicode.
use Prim.Native.Nat.{ℕ, ◌+◌}
use Prim.Native.Char.{code}
use Prim.Native.String.{String}
use mathlib.Core.Path.{◌≡◌, refl}
use mathlib.Core.Logic.{◌↔◌}
use mathlib.Core.Bool.{Bool, true, false, ◌&&◌, ◌||◌}
use mathlib.Core.List.{List, [], ◌∷◌, ◌++◌, reverse}
use mathlib.Core.Option.{Option, none, some}
use native.Mathlib.Omega.{arith}
use net_soldier.Prelude.Tests.{is_some, leb, ◌==◌, if◌then◌else◌, ==-refl}
use net_soldier.Prelude.Lists.{exists}

abbrev pub Text : Type 0
Text = List ℕ

-- The bytes of an ASCII literal.
abbrev pub codes : String → Text
codes String.[] = []
codes (String.◌∷◌ c s) = code c ∷ codes s

-- a == b
unfoldable pub str_eq : Text → Text → Bool
str_eq [] [] = true
str_eq [] (d ∷ t) = false
str_eq (c ∷ s) [] = false
str_eq (c ∷ s) (d ∷ t) = let rest = str_eq s t in if c == d then rest else false

pub str_eq_refl : (s : Text) → str_eq s s ≡ true
unfolding str_eq
str_eq_refl [] = refl
str_eq_refl (c ∷ s) = ground (arith, str_eq_refl s)

pub str_eq→eq : (s t : Text) → str_eq s t ≡ true → s ≡ t
unfolding str_eq
str_eq→eq [] [] h = refl
str_eq→eq [] (d ∷ t) h = cc
str_eq→eq (c ∷ s) [] h = cc
str_eq→eq (c ∷ s) (d ∷ t) h = ground (arith, str_eq→eq s t)

pub str_eq_iff : (s t : Text) → (str_eq s t ≡ true) ↔ (s ≡ t)
str_eq_iff s t = (str_eq→eq s t, λ e. rw e (str_eq_refl t))

-- s == ""
unfoldable pub is_empty : Text → Bool
is_empty [] = true
is_empty (c ∷ s) = false

unfoldable pub to_lower_byte : ℕ → ℕ
to_lower_byte c = if leb b'A' c && leb c b'Z' then c + 32 else c

-- strings.ToLower
unfoldable pub to_lower : Text → Text
unfolding to_lower_byte
to_lower [] = []
to_lower (c ∷ s) = to_lower_byte c ∷ to_lower s

unfoldable pub is_space : ℕ → Bool
is_space c = (leb 9 c && leb c 13) || c == 32

unfoldable pub trim_left : Text → Text
unfolding is_space
trim_left [] = []
trim_left (c ∷ s) = let rest = trim_left s in if is_space c then rest else c ∷ s

-- strings.TrimSpace
unfoldable pub trim_space : Text → Text
unfolding trim_left
trim_space s = reverse (trim_left (reverse (trim_left s)))

-- strings.HasPrefix, with what follows the prefix
unfoldable pub strip_prefix : Text → Text → Option Text
strip_prefix [] s = some s
strip_prefix (p ∷ ps) [] = none
strip_prefix (p ∷ ps) (c ∷ s) = let rest = strip_prefix ps s in if p == c then rest else none

-- strings.HasPrefix
unfoldable pub has_prefix : Text → Text → Bool
unfolding strip_prefix
has_prefix p s = is_some (strip_prefix p s)

-- strings.TrimPrefix and strings.TrimSuffix
unfoldable pub trim_prefix : Text → Text → Text
unfolding strip_prefix
trim_prefix p s = elim (strip_prefix p s) [ none ↦ s | some t ↦ t ]

unfoldable pub trim_suffix : Text → Text → Text
unfolding strip_prefix
trim_suffix p s = elim (strip_prefix (reverse p) (reverse s)) [ none ↦ s | some t ↦ reverse t ]

-- strings.Contains(s, string(c)), and strings.ContainsAny
abbrev pub has_byte : ℕ → Text → Bool
has_byte c = exists (λ d. c == d)

abbrev pub has_any : Text → Text → Bool
has_any cs = exists (λ d. has_byte d cs)

-- strings.Split at a single byte: never empty
unfoldable pub cons_first : ℕ → List Text → List Text
cons_first c [] = (c ∷ []) ∷ []
cons_first c (t ∷ ts) = (c ∷ t) ∷ ts

unfoldable pub split : ℕ → Text → List Text
unfolding cons_first
split sep [] = [] ∷ []
split sep (c ∷ s) = let rest = split sep s in if c == sep then [] ∷ rest else cons_first c rest

-- strings.Contains
unfoldable pub contains_text : Text → Text → Bool
unfolding strip_prefix
contains_text needle [] = is_empty needle
contains_text needle (c ∷ s) =
    let rest = contains_text needle s in
    if is_some (strip_prefix needle (c ∷ s)) then true else rest

-- strings.Join at a single byte
unfoldable pub join : ℕ → List Text → Text
join sep [] = []
join sep (t ∷ []) = t
join sep (t ∷ u ∷ ts) = t ++ sep ∷ join sep (u ∷ ts)

pub strip_prefix-append : (p s : Text) → strip_prefix p (p ++ s) ≡ some s
unfolding strip_prefix
strip_prefix-append [] s = refl
strip_prefix-append (p ∷ ps) s = rw (==-refl p) (strip_prefix-append ps s)

pub strip_prefix_sound : (p s t : Text) → strip_prefix p s ≡ some t → s ≡ p ++ t
unfolding strip_prefix
strip_prefix_sound [] s t h = ground arith
strip_prefix_sound (p ∷ ps) [] t h = cc
strip_prefix_sound (p ∷ ps) (c ∷ s) t h = ground (arith, strip_prefix_sound ps s t)
