-- ===== src/Policy/Allowlist/Macs.antt =====
-- Every accepted spelling of a hardware address is one and the same entry.
use net_soldier.Prelude.{
  ℕ, ◌/◌, ◌%◌, ◌<◌, ◌≡◌, refl, ap, ◌∙◌, Bool, false, none, some, List, [], ◌∷◌, Text, ◌==◌, length,
  if◌then◌else◌, arith, is_space, is_empty, trim_space, to_lower,
}
use net_soldier.Net.Mac.{parse_mac, mac_text, digit}
use net_soldier.Net.Mac.Spelling.{
  high, low, digit_plain, colon_text, dotted_text, bare_text, AreBytes, parse_mac-colon,
  parse_mac-dotted, parse_mac-bare,
}
use net_soldier.Policy.Allowlist.{normalize_mac, bare_hex, with_colons, normalize_trimmed}

-- The four styles, and how each is written.
pub data Style : Type 0 where
  colons hyphens dots bare : Style

unfoldable pub spell : Style → Bool → List ℕ → Text
spell colons upper bs = colon_text b':' upper bs
spell hyphens upper bs = colon_text b'-' upper bs
spell dots upper bs = dotted_text upper bs
spell bare upper bs = bare_text upper bs

to_lower-mac_text : (bs : List ℕ) → AreBytes bs → to_lower (mac_text bs) ≡ mac_text bs
unfolding to_lower mac_text
to_lower-mac_text [] h = refl
to_lower-mac_text (b ∷ []) h =
    let (c, d, e, f, g) = digit_plain false (b / 16) (omega arith) in
    let (c', d', e', f', g') = digit_plain false (b % 16) (omega arith) in simp (g, g')
to_lower-mac_text (b ∷ c ∷ bs) h =
    let (c1, d, e, f, g) = digit_plain false (b / 16) (omega arith) in
    let (c', d', e', f', g') = digit_plain false (b % 16) (omega arith) in
    simp (g, g', to_lower-mac_text (c ∷ bs) h.1)

module _ (b0 b1 b2 b3 b4 b5 : ℕ) (h : AreBytes (b0 ∷ b1 ∷ b2 ∷ b3 ∷ b4 ∷ b5 ∷ [])) where
  abbrev six : List ℕ
  six = b0 ∷ b1 ∷ b2 ∷ b3 ∷ b4 ∷ b5 ∷ []

  first_digit : (upper : Bool) → is_space (digit upper (b0 / 16)) ≡ false
  first_digit upper = (digit_plain upper (b0 / 16) (omega arith)).3

  last_digit : (upper : Bool) → is_space (digit upper (b5 % 16)) ≡ false
  last_digit upper = (digit_plain upper (b5 % 16) (omega arith)).3

  pub trim-spell :
      (style : Style) (upper : Bool) → trim_space (spell style upper six) ≡ spell style upper six
  unfolding trim_space spell colon_text dotted_text bare_text high low
  trim-spell colons upper = simp (first_digit upper, last_digit upper)
  trim-spell hyphens upper = simp (first_digit upper, last_digit upper)
  trim-spell dots upper = simp (first_digit upper, last_digit upper)
  trim-spell bare upper = simp (first_digit upper, last_digit upper)

  plain :
      (upper : Bool) (b : ℕ)
      → b < 256
      → ((high upper b == b':') ≡ false)
        × ((high upper b == b'-') ≡ false)
        × ((high upper b == b'.') ≡ false)
        × ((low upper b == b':') ≡ false)
        × ((low upper b == b'-') ≡ false)
        × ((low upper b == b'.') ≡ false)
  unfolding high low
  plain upper b lt =
      let (c, d, e, f, g) = digit_plain upper (b / 16) (omega arith) in
      let (c', d', e', f', g') = digit_plain upper (b % 16) (omega arith) in (c, d, e, c', d', e')

  -- Stripping the separators of a bare spelling changes nothing.
  bare_hex-bare : (upper : Bool) → bare_hex (bare_text upper six) ≡ bare_text upper six
  unfolding bare_hex bare_text
  bare_hex-bare upper =
      let p0 = plain upper b0 h.0 in
      let p1 = plain upper b1 h.1.0 in
      let p2 = plain upper b2 h.1.1.0 in
      let p3 = plain upper b3 h.1.1.1.0 in
      let p4 = plain upper b4 h.1.1.1.1.0 in
      let p5 = plain upper b5 h.1.1.1.1.1.0 in
      simp (
        p0.0, p0.1, p0.2, p0.3, p0.4, p0.5, p1.0, p1.1, p1.2, p1.3, p1.4, p1.5, p2.0, p2.1, p2.2,
        p2.3, p2.4, p2.5, p3.0, p3.1, p3.2, p3.3, p3.4, p3.5, p4.0, p4.1, p4.2, p4.3, p4.4, p4.5,
        p5.0, p5.1, p5.2, p5.3, p5.4, p5.5,
      )

  with_colons-bare : (upper : Bool) → with_colons (bare_text upper six) ≡ colon_text b':' upper six
  unfolding with_colons bare_text colon_text
  with_colons-bare upper = refl

  normalize_parsed :
      (s : Text)
      → parse_mac s ≡ some six
      → is_empty s ≡ false
      → normalize_trimmed s ≡ some (mac_text six)
  unfolding normalize_trimmed
  normalize_parsed s p e = rw (e, p) (ap some (to_lower-mac_text six h))

  bare_tail :
      (upper : Bool)
      → (if is_empty (bare_text upper six)
          then none
          else if length (bare_text upper six) == 12
          then some (to_lower (mac_text six))
          else none)
        ≡ some (mac_text six)
  unfolding bare_text is_empty
  bare_tail upper = ap some (to_lower-mac_text six h)

  normalize_bare : (upper : Bool) → normalize_trimmed (bare_text upper six) ≡ some (mac_text six)
  unfolding normalize_trimmed
  normalize_bare upper = rw (parse_mac-bare b0 b1 b2 b3 b4 b5 h upper) (
      rw (bare_hex-bare upper) (
        rw (with_colons-bare upper)
          (rw (parse_mac-colon b0 b1 b2 b3 b4 b5 h b':' upper refl) (bare_tail upper))))

  normalize_trimmed-spell :
      (style : Style) (upper : Bool)
      → normalize_trimmed (spell style upper six) ≡ some (mac_text six)
  unfolding spell colon_text dotted_text is_empty
  normalize_trimmed-spell colons upper =
      normalize_parsed _ (parse_mac-colon b0 b1 b2 b3 b4 b5 h b':' upper refl) refl
  normalize_trimmed-spell hyphens upper =
      normalize_parsed _ (parse_mac-colon b0 b1 b2 b3 b4 b5 h b'-' upper refl) refl
  normalize_trimmed-spell dots upper =
      normalize_parsed _ (parse_mac-dotted b0 b1 b2 b3 b4 b5 h upper) refl
  normalize_trimmed-spell bare upper = normalize_bare upper

  -- Six bytes spelled with colons, hyphens, dots or bare, in capitals or not, normalize to the
  -- lower-case colon form.
  pub normalize-spell :
      (style : Style) (upper : Bool) → normalize_mac (spell style upper six) ≡ some (mac_text six)
  unfolding normalize_mac
  normalize-spell style upper =
      ap normalize_trimmed (trim-spell style upper) ∙ normalize_trimmed-spell style upper
