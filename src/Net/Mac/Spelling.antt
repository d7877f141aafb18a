-- ===== src/Net/Mac/Spelling.antt =====
-- The spellings of a hardware address, and that each is parsed.
use net_soldier.Prelude.{
  ℕ, ◌/◌, ◌%◌, ◌<◌, ◌≡◌, ap, Bool, true, false, ◌||◌, none, some, List, [], ◌∷◌, Text, ◌==◌,
  ==-refl, All, arith, is_space, to_lower_byte,
}
use net_soldier.Net.Mac.{hex_value, hex_byte, cons?, colon_form, dotted_form, parse_mac, digit}

-- The two digits of a byte.
unfoldable pub high : Bool → ℕ → ℕ
high upper b = digit upper (b / 16)

unfoldable pub low : Bool → ℕ → ℕ
low upper b = digit upper (b % 16)

hex_value-digit : (upper : Bool) (n : ℕ) → n < 16 → hex_value (digit upper n) ≡ some n
unfolding hex_value digit
hex_value-digit upper n h = ground arith

pub hex_byte-digits :
    (upper : Bool) (b : ℕ) → b < 256 → hex_byte (high upper b) (low upper b) ≡ some b
unfolding hex_byte high low
hex_byte-digits upper b h =
    rw (hex_value-digit upper (b / 16) (omega arith))
      (rw (hex_value-digit upper (b % 16) (omega arith)) (ap some (omega arith)))

-- A digit is no separator, no white space, and in lower case stays as it is.
pub digit_plain :
    (upper : Bool) (n : ℕ)
    → n < 16
    → ((digit upper n == b':') ≡ false)
      × ((digit upper n == b'-') ≡ false)
      × ((digit upper n == b'.') ≡ false)
      × (is_space (digit upper n) ≡ false)
      × (to_lower_byte (digit false n) ≡ digit false n)
unfolding digit is_space to_lower_byte
digit_plain upper n h = ground arith

-- Bytes separated by one separator; pairs of bytes separated by dots; no separator.
unfoldable pub colon_text : ℕ → Bool → List ℕ → Text
colon_text sep upper [] = []
colon_text sep upper (b ∷ []) = high upper b ∷ low upper b ∷ []
colon_text sep upper (b ∷ c ∷ bs) = high upper b ∷ low upper b ∷ sep ∷ colon_text sep upper (c ∷ bs)

unfoldable pub dotted_text : Bool → List ℕ → Text
dotted_text upper (b ∷ c ∷ []) = high upper b ∷ low upper b ∷ high upper c ∷ low upper c ∷ []
dotted_text upper (b ∷ c ∷ d ∷ bs) =
    high upper b ∷ low upper b ∷ high upper c ∷ low upper c ∷ b'.' ∷ dotted_text upper (d ∷ bs)
dotted_text upper _ = []

unfoldable pub bare_text : Bool → List ℕ → Text
bare_text upper [] = []
bare_text upper (b ∷ bs) = high upper b ∷ low upper b ∷ bare_text upper bs

abbrev pub AreBytes : List ℕ → Type 0
AreBytes = All (λ b. b < 256)

colon_form-colon_text :
    (sep : ℕ) (upper : Bool) (b : ℕ) (bs : List ℕ)
    → AreBytes (b ∷ bs)
    → colon_form sep (colon_text sep upper (b ∷ bs)) ≡ some (b ∷ bs)
unfolding colon_form colon_text cons?
colon_form-colon_text sep upper b [] h = rw (hex_byte-digits upper b h.0)
colon_form-colon_text sep upper b (c ∷ bs) h =
    simp (hex_byte-digits upper b h.0, ==-refl sep, colon_form-colon_text sep upper c bs h.1)

module _ (b0 b1 b2 b3 b4 b5 : ℕ) (h : AreBytes (b0 ∷ b1 ∷ b2 ∷ b3 ∷ b4 ∷ b5 ∷ [])) where
  abbrev six : List ℕ
  six = b0 ∷ b1 ∷ b2 ∷ b3 ∷ b4 ∷ b5 ∷ []

  pub parse_mac-colon :
      (sep : ℕ) (upper : Bool)
      → (sep == b':' || sep == b'-') ≡ true
      → parse_mac (colon_text sep upper six) ≡ some six
  unfolding parse_mac colon_text
  parse_mac-colon sep upper e =
      rw e (rw (colon_form-colon_text sep upper b0 (b1 ∷ b2 ∷ b3 ∷ b4 ∷ b5 ∷ []) h))

  pub parse_mac-dotted : (upper : Bool) → parse_mac (dotted_text upper six) ≡ some six
  unfolding parse_mac dotted_text dotted_form high low
  parse_mac-dotted upper =
      let (c, d, e, f, g) = digit_plain upper (b1 / 16) (omega arith) in
      simp (
        hex_byte-digits upper b0 h.0,
        hex_byte-digits upper b1 h.1.0,
        hex_byte-digits upper b2 h.1.1.0,
        hex_byte-digits upper b3 h.1.1.1.0,
        hex_byte-digits upper b4 h.1.1.1.1.0,
        hex_byte-digits upper b5 h.1.1.1.1.1.0,
        c,
        d,
      )

  -- With no separator the third byte is no colon or hyphen, and the fifth is no dot.
  pub parse_mac-bare : (upper : Bool) → parse_mac (bare_text upper six) ≡ none
  unfolding parse_mac bare_text high low
  parse_mac-bare upper =
      let (c, d, e, f, g) = digit_plain upper (b1 / 16) (omega arith) in
      let (c', d', e', f', g') = digit_plain upper (b2 / 16) (omega arith) in simp (c, d, e')
