-- ===== src/Events/Signature.antt =====
-- libs/events/signature.go: the signature of a webhook body. HMAC-SHA256 is a parameter, a function
-- of the secret and the body.
pub mod RoundTrip
use net_soldier.Prelude.{
  ℕ, ◌+◌, ◌*◌, ◌/◌, ◌%◌, Bool, false, Option, none, some, List, [], ◌∷◌, ◌++◌, Text, codes,
  is_empty, trim_space, strip_prefix, str_eq, if◌then◌else◌,
}
use net_soldier.Net.Mac.{hex_byte, cons?, digit}

abbrev pub Hmac : Type 0
Hmac = Text → Text → Text

-- signaturePrefix
abbrev pub signature_prefix : Text
signature_prefix = codes "sha256="

-- hex.EncodeToString
unfoldable pub hex_encode : Text → Text
unfolding digit
hex_encode [] = []
hex_encode (b ∷ s) = digit false (b / 16) ∷ digit false (b % 16) ∷ hex_encode s

-- hex.DecodeString; none is its error.
unfoldable pub hex_decode : Text → Option Text
unfolding hex_byte cons?
hex_decode [] = some []
hex_decode (h ∷ []) = none
hex_decode (h ∷ l ∷ s) = cons? (hex_byte h l) (hex_decode s)

-- The errors of VerifyPayload.
pub data SignatureError : Type 0 where
  missing unsupported malformed mismatch : SignatureError

module _ (hmac : Hmac) where
  -- SignPayload
  unfoldable pub sign_payload : Text → Text → Text
  unfolding hex_encode
  sign_payload secret body = signature_prefix ++ hex_encode (hmac secret body)

  compare_mac : Text → Text → Option Text → Option SignatureError
  compare_mac secret body none = some malformed
  compare_mac secret body (some got) = if str_eq got (hmac secret body) then none else some mismatch

  check_scheme : Text → Text → Option Text → Option SignatureError
  unfolding compare_mac
  check_scheme secret body none = some unsupported
  check_scheme secret body (some hex) = compare_mac secret body (hex_decode hex)

  -- VerifyPayload; none is success.
  unfoldable pub verify_payload : Text → Text → Text → Option SignatureError
  unfolding check_scheme hex_decode
  verify_payload secret header body =
      if is_empty (trim_space header)
      then some missing
      else check_scheme secret body (strip_prefix signature_prefix header)
