-- ===== src/Events/Signature/RoundTrip.antt =====
-- What is signed is accepted, and what is accepted carries the body's own code.
use net_soldier.Prelude.{
  ℕ, ◌≡◌, refl, ap, ◌∙◌, false, Option, none, some, [], ◌∷◌, ◌++◌, arith, Text, is_empty,
  trim_space, trim_left, is_space, strip_prefix, strip_prefix-append, str_eq, str_eq→eq,
  if◌then◌else◌, Option-cases, Bool-cases, inl, inr,
}
use mathlib.Core.List.{reverse, reverse-append}
use net_soldier.Net.Mac.{cons?}
use net_soldier.Net.Mac.Spelling.{hex_byte-digits, AreBytes, high, low}
use net_soldier.Events.Signature.{
  Hmac, hex_encode, hex_decode, sign_payload, verify_payload, signature_prefix, SignatureError,
  check_scheme, compare_mac,
}

hex_decode-encode : (s : Text) → AreBytes s → hex_decode (hex_encode s) ≡ some s
unfolding hex_decode hex_encode high low cons?
hex_decode-encode [] h = refl
hex_decode-encode (b ∷ s) h = simp (hex_byte-digits false b h.0, hex_decode-encode s h.1)

trim_left_last :
    (s : Text) (c : ℕ) → is_space c ≡ false → is_empty (trim_left (s ++ c ∷ [])) ≡ false
unfolding trim_left is_empty
trim_left_last [] c h = rw h
trim_left_last (d ∷ s) c h = ground (arith, trim_left_last s c h)

nonempty-append : (s : Text) (c : ℕ) → is_empty (s ++ c ∷ []) ≡ false
unfolding is_empty
nonempty-append [] c = refl
nonempty-append (d ∷ s) c = refl

nonempty-reverse : (s : Text) → is_empty s ≡ false → is_empty (reverse s) ≡ false
unfolding is_empty
nonempty-reverse [] h = cc
nonempty-reverse (c ∷ s) h = ap is_empty (reverse-append (c ∷ []) s) ∙ nonempty-append (reverse s) c

-- A text that begins with a byte that is no white space is not blank.
nonempty-trim_space :
    (c : ℕ) (s : Text) → is_space c ≡ false → is_empty (trim_space (c ∷ s)) ≡ false
unfolding trim_space
nonempty-trim_space c s h =
    let front : trim_left (c ∷ s) ≡ c ∷ s = rw h in
    ap (λ (t : Text). is_empty (reverse (trim_left (reverse t)))) front
    ∙ nonempty-reverse _ (
        ap (λ (t : Text). is_empty (trim_left t)) (reverse-append (c ∷ []) s)
        ∙ trim_left_last (reverse s) c h)

module _ (hmac : Hmac) where
  -- The header of a signed body, read back.
  verify_of_prefix :
      (secret body hex : Text)
      → verify_payload hmac secret (signature_prefix ++ hex) body
        ≡ compare_mac hmac secret body (hex_decode hex)
  unfolding verify_payload
  verify_of_prefix secret body hex =
      rw (nonempty-trim_space b's' _ (unfold is_space in refl))
        (rw (strip_prefix-append signature_prefix hex) (unfold check_scheme in refl))

  -- With codes that are bytes, the receiver accepts what the sender signed with the same secret,
  -- and of another body whose code differs it rejects the signature as a mismatch.
  pub verify-sign :
      (secret body body' : Text)
      → AreBytes (hmac secret body)
      → verify_payload hmac secret (sign_payload hmac secret body) body' ≡ (
          if str_eq (hmac secret body) (hmac secret body')
          then none
          else some SignatureError.mismatch)
  unfolding sign_payload compare_mac
  verify-sign secret body body' h =
      verify_of_prefix secret body' (hex_encode (hmac secret body))
      ∙ rw (hex_decode-encode (hmac secret body) h)

  accepted :
      (secret body : Text) (o : Option Text)
      → compare_mac hmac secret body o ≡ none
      → o ≡ some (hmac secret body)
  unfolding compare_mac
  accepted secret body none h = cc
  accepted secret body (some got) h = ap some (str_eq→eq got (hmac secret body) (ground arith))

  -- A header that is accepted is the prefix and a hexadecimal text of the code of this very body.
  pub verify_sound :
      (secret header body : Text)
      → verify_payload hmac secret header body ≡ none
      → (hex : Text) × (strip_prefix signature_prefix header ≡ some hex)
        × (hex_decode hex ≡ some (hmac secret body))
  unfolding verify_payload
  verify_sound secret header body = elim (Bool-cases (is_empty (trim_space header))) [
    | inl blank ↦ rw blank (λ h. cc)
    | inr full ↦ rw full (elim (Option-cases (strip_prefix signature_prefix header)) [
      | inl e ↦ rw (e, check_scheme) (λ h. cc)
      | inr (hex, e) ↦
          rw (e, check_scheme) (λ h. (hex, refl, accepted secret body (hex_decode hex) h))
    ])
  ]
