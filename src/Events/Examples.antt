-- ===== src/Events/Examples.antt =====
-- Tests and examples of events and signatures.
use net_soldier.Prelude.{
  ◌≡◌, refl, none, some, [], ◌∷◌, Text, codes, pos, str_eq, strip_prefix, is_empty, trim_space,
  if◌then◌else◌, arith,
}
use net_soldier.Net.Mac.Spelling.{AreBytes}
use net_soldier.Events.Detection.{DetectionEvent, severity_critical}
use net_soldier.Events.Signature.{
  Hmac, SignatureError, sign_payload, verify_payload, signature_prefix, hex_decode,
}
use net_soldier.Events.Signature.RoundTrip.{verify-sign, verify_sound}

-- A composite detection of a device at a known address.
abbrev pub sample_event : DetectionEvent
sample_event = record {
  schema_version = codes "1.0";
  id = codes "d1";
  timestamp = 5;
  domain = codes "evil.example";
  matched_ioc = [];
  ioc_type = [];
  client_ip = codes "10.0.0.5";
  client_mac = [];
  client_name = [];
  severity = severity_critical;
  confidence = pos 95;
  source = codes "composite";
  threat = [];
  mitre_id = [];
  mitre_name = [];
  query_type = [];
  tags = [];
  signal_class = codes "composite";
  signals = codes "dga" ∷ codes "ioc" ∷ codes "ioc" ∷ [];
  signal_count = pos 2;
}

-- A code of two bytes that depends on the body.
abbrev pub sample_hmac : Hmac
sample_hmac secret [] = 1 ∷ 2 ∷ []
sample_hmac secret (c ∷ s) = 171 ∷ 3 ∷ []

bytes_of_code : AreBytes (sample_hmac (codes "key") (codes "body"))
bytes_of_code = (omega arith, (omega arith, tt))

verify-sign_example :
    verify_payload sample_hmac
      (codes "key")
      (sign_payload sample_hmac (codes "key") (codes "body"))
      []
    ≡ (if str_eq (sample_hmac (codes "key") (codes "body")) (sample_hmac (codes "key") [])
        then none
        else some SignatureError.mismatch)
verify-sign_example = verify-sign sample_hmac (codes "key") (codes "body") [] bytes_of_code

accepts_code : verify_payload sample_hmac (codes "key") (codes "sha256=ab03") (codes "body") ≡ none
unfolding verify_payload is_empty trim_space strip_prefix str_eq
accepts_code = refl

verify_sound_example :
    (hex : Text) × (strip_prefix signature_prefix (codes "sha256=ab03") ≡ some hex)
    × (hex_decode hex ≡ some (sample_hmac (codes "key") (codes "body")))
verify_sound_example =
    verify_sound sample_hmac (codes "key") (codes "sha256=ab03") (codes "body") accepts_code
