-- ===== src/Controller/Auth/Entry.antt =====
-- Who gets past the middleware.
use net_soldier.Prelude.{
  ◌≡◌, ◌≤◌, ◌++◌, refl, inl, inr, true, false, Option, none, some, arith, Text, codes, is_empty,
  strip_prefix, strip_prefix_sound, str_eq, str_eq→eq, length, Option-cases, ap, ◌∙◌,
}
use net_soldier.Events.Signature.{
  Hmac, SignatureError, verify_payload, signature_prefix, hex_decode,
}
use net_soldier.Events.Signature.RoundTrip.{verify_sound}
use net_soldier.Controller.Auth.{
  max_body_bytes, Request, passed, valid_bearer, auth_middleware, of_verification,
}

bearer_sound :
    (header key : Text) → valid_bearer header key ≡ true → header ≡ codes "Bearer " ++ key
unfolding valid_bearer
bearer_sound header key = elim (Option-cases (strip_prefix (codes "Bearer ") header)) [
  | inl e ↦ rw (e, valid_bearer) (λ h. cc)
  | inr (token, e) ↦
      rw (e, valid_bearer)
        (λ h.
          strip_prefix_sound (codes "Bearer ") header token e
          ∙ ap (λ (t : Text). codes "Bearer " ++ t) (str_eq→eq token key h))
]

verified : (o : Option SignatureError) → of_verification o ≡ passed → o ≡ none
unfolding of_verification
verified none h = refl
verified (some e) h = cc

-- With an API key and a webhook secret configured, a request to /evaluate that is no GET and is
-- handed on bears exactly the key, has a body within the limit, and is signed with a code of that
-- body.
pub auth_middleware_sound :
    (hmac : Hmac) (key secret : Text) (r : Request)
    → is_empty key ≡ false
    → is_empty secret ≡ false
    → str_eq r.method (codes "GET") ≡ false
    → str_eq r.path (codes "/evaluate") ≡ true
    → auth_middleware hmac key secret r ≡ passed
    → (r.authorization ≡ codes "Bearer " ++ key)
      × (length r.body ≤ max_body_bytes)
      × ((hex : Text) × (strip_prefix signature_prefix r.signature ≡ some hex)
          × (hex_decode hex ≡ some (hmac secret r.body)))
unfolding auth_middleware
auth_middleware_sound hmac key secret r keyed secreted posted evaluates h =
    let bearer : valid_bearer r.authorization key ≡ true = ground arith in
    let fits : length r.body ≤ max_body_bytes = ground arith in
    let checked : of_verification (verify_payload hmac secret r.signature r.body) ≡ passed =
      ground arith in
    (
      bearer_sound r.authorization key bearer,
      fits,
      verify_sound hmac secret r.signature r.body (verified _ checked),
    )
