-- ===== src/Drivers/Guard/Spelling.antt =====
-- The guard knows a device by any spelling of its hardware address, and an address by any of its
-- forms.
use net_soldier.Prelude.{
  ℕ, ◌/◌, ◌%◌, ◌<◌, ◌≡◌, refl, ◌∙◌, Bool, true, false, some, List, [], ◌∷◌, Text, is_empty,
  to_lower, to_lower_byte, exists, exists-append, str_eq, str_eq_refl, arith,
}
use net_soldier.Net.Mac.{digit}
use net_soldier.Net.Mac.Spelling.{high, low, colon_text, dotted_text, bare_text, AreBytes}
use net_soldier.Net.Addr.{NetParser}
use net_soldier.Policy.Allowlist.Macs.{Style, colons, hyphens, dots, bare, spell, trim-spell}
use net_soldier.Drivers.Guard.{
  TargetGuard, Refusal, normalize_mac_key, key_letters, hex_letter, separator, of_twelve,
  protect_mac, add_key, check, guards_mac,
}

-- A digit, lowered, is a letter of the key.
lower_digit :
    (upper : Bool) (n : ℕ)
    → n < 16
    → (to_lower_byte (digit upper n) ≡ digit false n) × (hex_letter (digit false n) ≡ true)
unfolding to_lower_byte digit hex_letter
lower_digit upper n h = ground arith

lower_byte :
    (upper : Bool) (b : ℕ) (s t : Text)
    → b < 256
    → key_letters (to_lower s) ≡ some t
    → key_letters (to_lower (high upper b ∷ low upper b ∷ s))
      ≡ some (high false b ∷ low false b ∷ t)
unfolding key_letters to_lower high low
lower_byte upper b s t lt e =
    let (hi, hi') = lower_digit upper (b / 16) (omega arith) in
    let (lo, lo') = lower_digit upper (b % 16) (omega arith) in simp (hi, lo, e, hi', lo')

-- A separator leaves no letter.
lower_separator :
    (sep : ℕ) (s : Text)
    → separator sep ≡ true
    → key_letters (to_lower (sep ∷ s)) ≡ key_letters (to_lower s)
unfolding key_letters to_lower hex_letter separator to_lower_byte
lower_separator sep s h = ground arith

letters_nil : key_letters (to_lower []) ≡ some []
unfolding key_letters to_lower
letters_nil = refl

letters-colon :
    (sep : ℕ) (upper : Bool) (bs : List ℕ)
    → separator sep ≡ true
    → AreBytes bs
    → key_letters (to_lower (colon_text sep upper bs)) ≡ some (bare_text false bs)
unfolding colon_text bare_text
letters-colon sep upper [] e h = letters_nil
letters-colon sep upper (b ∷ []) e h = lower_byte upper b [] [] h.0 letters_nil
letters-colon sep upper (b ∷ c ∷ bs) e h =
    lower_byte upper b (sep ∷ colon_text sep upper (c ∷ bs)) (bare_text false (c ∷ bs)) h.0 (
      lower_separator sep (colon_text sep upper (c ∷ bs)) e
      ∙ letters-colon sep upper (c ∷ bs) e h.1)

letters-bare :
    (upper : Bool) (bs : List ℕ)
    → AreBytes bs
    → key_letters (to_lower (bare_text upper bs)) ≡ some (bare_text false bs)
unfolding bare_text
letters-bare upper [] h = letters_nil
letters-bare upper (b ∷ bs) h =
    lower_byte upper b (bare_text upper bs) (bare_text false bs) h.0 (letters-bare upper bs h.1)

module _ (b0 b1 b2 b3 b4 b5 : ℕ) (h : AreBytes (b0 ∷ b1 ∷ b2 ∷ b3 ∷ b4 ∷ b5 ∷ [])) where
  abbrev six : List ℕ
  six = b0 ∷ b1 ∷ b2 ∷ b3 ∷ b4 ∷ b5 ∷ []

  letters-dotted :
      (upper : Bool) → key_letters (to_lower (dotted_text upper six)) ≡ some (bare_text false six)
  unfolding dotted_text bare_text separator
  letters-dotted upper = lower_byte upper b0 _ _ h.0 (
      lower_byte upper b1 _ _ h.1.0 (
        lower_separator b'.' _ refl
        ∙ lower_byte upper b2 _ _ h.1.1.0 (
            lower_byte upper b3 _ _ h.1.1.1.0 (
              lower_separator b'.' _ refl
              ∙ lower_byte upper b4 _ _ h.1.1.1.1.0
                  (lower_byte upper b5 _ _ h.1.1.1.1.1.0 letters_nil)))))

  letters-spell :
      (style : Style) (upper : Bool)
      → key_letters (to_lower (spell style upper six)) ≡ some (bare_text false six)
  unfolding spell separator
  letters-spell colons upper = letters-colon b':' upper six refl h
  letters-spell hyphens upper = letters-colon b'-' upper six refl h
  letters-spell dots upper = letters-dotted upper
  letters-spell bare upper = letters-bare upper six h

  pub key-spell :
      (style : Style) (upper : Bool)
      → normalize_mac_key (spell style upper six) ≡ bare_text false six
  unfolding normalize_mac_key of_twelve bare_text
  key-spell style upper =
      rw (trim-spell b0 b1 b2 b3 b4 b5 h style upper) (rw (letters-spell style upper))

has_key-add_key : (k : Text) (ks : List Text) → exists (λ j. str_eq j k) (add_key k ks) ≡ true
unfolding add_key
has_key-add_key k ks = ground (arith, exists-append (λ j. str_eq j k) ks (k ∷ []), str_eq_refl k)

pub guarded :
    (mac mac' key : Text) (g : TargetGuard)
    → normalize_mac_key mac ≡ key
    → normalize_mac_key mac' ≡ key
    → is_empty key ≡ false
    → guards_mac mac' (protect_mac mac g) ≡ true
unfolding guards_mac protect_mac
guarded mac mac' key g e e' full = rw (e', e) (rw full (has_key-add_key key g.macs))

-- Once six bytes are protected in any spelling, no driver is let loose on a device that shows them
-- in any spelling, whatever its IP: Check refuses and names the device.
pub check-protect_mac :
    (net : NetParser) (b0 b1 b2 b3 b4 b5 : ℕ) (style style' : Style) (upper upper' : Bool)
    (ip : Text) (g : TargetGuard)
    → let six = b0 ∷ b1 ∷ b2 ∷ b3 ∷ b4 ∷ b5 ∷ [] in
      AreBytes six
      → check net (some (protect_mac (spell style upper six) g)) (spell style' upper' six) ip
        ≡ some (Refusal.protected_device (spell style' upper' six))
unfolding check
check-protect_mac net b0 b1 b2 b3 b4 b5 style style' upper upper' ip g h =
    let six = b0 ∷ b1 ∷ b2 ∷ b3 ∷ b4 ∷ b5 ∷ [] in
    rw (
      guarded (spell style upper six) (spell style' upper' six) (bare_text false six) g
        (key-spell b0 b1 b2 b3 b4 b5 h style upper) (key-spell b0 b1 b2 b3 b4 b5 h style' upper')
        (unfold bare_text is_empty in refl))
