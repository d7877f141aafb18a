-- ===== src/Controller/Auth.antt =====
-- authMiddleware of apps/killswitch-controller/cmd/killswitch-controller/main.go.
pub mod Entry
use net_soldier.Prelude.{
  ℕ, Bool, true, false, not, ◌&&◌, Option, none, some, Text, codes, is_empty, strip_prefix, str_eq,
  ltb, length, if◌then◌else◌,
}
use net_soldier.Events.Signature.{Hmac, SignatureError, verify_payload}

-- maxBodyBytes
abbrev pub max_body_bytes : ℕ
max_body_bytes = 1048576

pub record Request : Type 0 where
  pub method : Text
  pub path : Text
  pub authorization : Text
  pub signature : Text
  pub body : Text

-- The request is handed on, or answered with a status.
pub data Access : Type 0 where
  passed : Access
  refused : ℕ → Access

-- validBearer
unfoldable pub valid_bearer : Text → Text → Bool
valid_bearer header key = elim (strip_prefix (codes "Bearer ") header) [
  | none ↦ false
  | some token ↦ str_eq token key
]

of_verification : Option SignatureError → Access
of_verification none = passed
of_verification (some e) = refused 401

-- authMiddleware
unfoldable pub auth_middleware : Hmac → Text → Text → Request → Access
unfolding of_verification
auth_middleware hmac key secret r =
    if str_eq r.method (codes "GET")
    then passed
    else if not (is_empty key) && not (valid_bearer r.authorization key)
    then refused 401
    else if ltb max_body_bytes (length r.body)
    then refused 413
    else if not (is_empty secret) && str_eq r.path (codes "/evaluate")
    then of_verification (verify_payload hmac secret r.signature r.body)
    else passed
