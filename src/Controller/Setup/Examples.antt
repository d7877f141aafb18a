-- ===== src/Controller/Setup/Examples.antt =====
-- Tests and examples of the configuration and of authentication.
use net_soldier.Prelude.{
  ℕ, ◌+◌, ◌≡◌, ◌≤◌, ◌⊎◌, ◌++◌, refl, inl, inr, Bool, true, false, Option, none, some, List, [], ◌∷◌,
  Text, codes, pos, length, str_eq, is_empty, strip_prefix, if◌then◌else◌,
}
use net_soldier.Net.Samples.{sample_net}
use net_soldier.Events.Examples.{sample_hmac}
use net_soldier.Events.Signature.{signature_prefix, hex_decode}
use net_soldier.Policy.Allowlist.{Allowlist, contains}
use net_soldier.Policy.Rules.{Policy, default_policy}
use net_soldier.Controller.{World, handle_evaluate, handle_revert, apply_action, ttl_tick}
use net_soldier.Prelude.{arith}
use net_soldier.Net.Mac.Spelling.{AreBytes}
use net_soldier.Policy.Env.{Env}
use net_soldier.Policy.Allowlist.Macs.{dots, bare, spell}
use net_soldier.Drivers.Guard.{Refusal, check}
use net_soldier.Controller.{handle_approve}
use net_soldier.Controller.Setup.{build_guard}
use net_soldier.Controller.Setup.Guarding.{build_guard_refuses}
use net_soldier.Controller.Auth.{Request, passed, max_body_bytes, auth_middleware}
use net_soldier.Controller.Auth.Entry.{auth_middleware_sound}

abbrev signed_request : Request
signed_request = record {
  method = codes "POST";
  path = codes "/evaluate";
  authorization = codes "Bearer k";
  signature = codes "sha256=ab03";
  body = codes "body";
}

passes : auth_middleware sample_hmac (codes "k") (codes "s") signed_request ≡ passed
unfolding auth_middleware str_eq is_empty net_soldier.Controller.Auth.valid_bearer strip_prefix
    net_soldier.Events.Signature.verify_payload net_soldier.Prelude.trim_space
passes = refl

has_key : is_empty (codes "k") ≡ false
unfolding is_empty
has_key = refl

has_secret : is_empty (codes "s") ≡ false
unfolding is_empty
has_secret = refl

no_get : str_eq (codes "POST") (codes "GET") ≡ false
unfolding str_eq
no_get = refl

to_evaluate : str_eq (codes "/evaluate") (codes "/evaluate") ≡ true
unfolding str_eq
to_evaluate = refl

auth_middleware_sound_example :
    (codes "Bearer k" ≡ codes "Bearer " ++ codes "k")
    × (length (codes "body") ≤ max_body_bytes)
    × ((hex : Text) × (strip_prefix signature_prefix (codes "sha256=ab03") ≡ some hex)
        × (hex_decode hex ≡ some (sample_hmac (codes "s") (codes "body"))))
auth_middleware_sound_example =
    auth_middleware_sound sample_hmac (codes "k") (codes "s") signed_request has_key has_secret
      no_get to_evaluate passes

abbrev no_settings : Env
no_settings name = []

abbrev one_device : Policy
one_device = record default_policy {
  allowlist = record { macs = codes "02:00:ab:cd:10:ff" ∷ []; addrs = []; nets = [] };
}

device_bytes : AreBytes (2 ∷ 0 ∷ 171 ∷ 205 ∷ 16 ∷ 255 ∷ [])
device_bytes =
    (omega arith, (omega arith, (omega arith, (omega arith, (omega arith, (omega arith, tt))))))

knows_device :
    contains sample_net
      (spell dots true (2 ∷ 0 ∷ 171 ∷ 205 ∷ 16 ∷ 255 ∷ []))
      []
      one_device.allowlist
    ≡ true
unfolding contains spell is_empty net_soldier.Net.Mac.Spelling.dotted_text
    net_soldier.Policy.Allowlist.normalize_mac net_soldier.Prelude.trim_space
    net_soldier.Net.Mac.Spelling.high net_soldier.Net.Mac.digit net_soldier.Net.Mac.Spelling.low
    net_soldier.Net.Mac.parse_mac str_eq net_soldier.Prelude.to_lower net_soldier.Net.Mac.mac_text
knows_device = refl

build_guard_refuses_example :
    check sample_net
      (some (build_guard sample_net no_settings one_device))
      (spell bare false (2 ∷ 0 ∷ 171 ∷ 205 ∷ 16 ∷ 255 ∷ []))
      (codes "10.0.0.9")
    ≡ some (Refusal.protected_device (spell bare false (2 ∷ 0 ∷ 171 ∷ 205 ∷ 16 ∷ 255 ∷ [])))
build_guard_refuses_example =
    build_guard_refuses sample_net no_settings one_device 2 0 171 205 16 255 dots bare true false
      (codes "10.0.0.9") device_bytes knows_device
