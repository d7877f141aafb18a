-- ===== src/Drivers/Examples.antt =====
-- Tests and examples of the drivers.
use net_soldier.Prelude.{
  ℕ, suc, ◌≡◌, ◌≢◌, inr, ◌≤◌, refl, Bool, true, false, Option, none, some, List, [], ◌∷◌, Text,
  codes, pos, arith, every, has_byte, length, ap, lookup, str_eq, if◌then◌else◌,
}
use net_soldier.Net.Mac.Spelling.{AreBytes}
use net_soldier.Net.Samples.{sample_net}
use net_soldier.Events.Action.{EnforcementAction, active}
use net_soldier.Policy.Allowlist.Macs.{hyphens, dots, bare, spell}
use net_soldier.Drivers.Guard
use net_soldier.Drivers.Guard.{Refusal, protect_mac, check}
use net_soldier.Drivers.Guard.Spelling.{check-protect_mac}
use net_soldier.Drivers.Sinkhole
use net_soldier.Drivers.Sinkhole.{AdGuard, validate_domain, rule_of}
use net_soldier.Drivers.Sinkhole.Domains.{is_host_byte, validate_domain_plain}
use net_soldier.Drivers.Sinkhole.Rules.{holds, ReadsBack, apply-revert}
use net_soldier.Drivers.ArpIsolate
use net_soldier.Drivers.ArpIsolate.{Bytes, Kernel, ArpDriver, poison_tick, resolve_from_proc_arp}
use net_soldier.Drivers.ArpIsolate.Setup.{
  GatewayAddr, new_arp_isolate_driver, new_arp-spares_gateway,
}
use net_soldier.Drivers.ArpIsolate.Lifetime.{at_once, applied, ticked}
use net_soldier.Drivers.ArpIsolate.Refusals.{Applied, apply-Applied, revert-active}
use net_soldier.Drivers.SwitchPort.{Webhook}

-- An action against one device and one domain.
abbrev pub sample_action : EnforcementAction
sample_action = record {
  schema_version = codes "1.0";
  id = codes "ACT-1";
  timestamp = 5;
  detection_id = codes "d1";
  action_type = codes "dns_sinkhole";
  state = active;
  target_mac = codes "02-00-AB-CD-10-FF";
  target_ip = codes "10.0.0.5";
  blocked_domain = codes "Evil.example.";
  policy_rule = codes "auto";
  auto_approved = true;
  ttl_seconds = pos 60;
  expires_at = some (pos 60000000005);
  reverted_at = none;
  approved_by = codes "auto-policy";
  reason = [];
  failure_reason = [];
}

bytes : AreBytes (2 ∷ 0 ∷ 171 ∷ 205 ∷ 16 ∷ 255 ∷ [])
bytes = (omega arith, (omega arith, (omega arith, (omega arith, (omega arith, (omega arith, tt))))))

check-protect_mac_example :
    check sample_net
      (some (protect_mac (spell dots false (2 ∷ 0 ∷ 171 ∷ 205 ∷ 16 ∷ 255 ∷ [])) Guard.empty))
      (spell bare true (2 ∷ 0 ∷ 171 ∷ 205 ∷ 16 ∷ 255 ∷ []))
      []
    ≡ some (Refusal.protected_device (spell bare true (2 ∷ 0 ∷ 171 ∷ 205 ∷ 16 ∷ 255 ∷ [])))
check-protect_mac_example =
    check-protect_mac sample_net 2 0 171 205 16 255 dots bare false true [] Guard.empty bytes

abbrev count_calls : Webhook ℕ
count_calls r n = (suc n, none)

aimed : sample_action.target_mac ≡ spell hyphens true (2 ∷ 0 ∷ 171 ∷ 205 ∷ 16 ∷ 255 ∷ [])
unfolding spell net_soldier.Net.Mac.Spelling.colon_text net_soldier.Net.Mac.Spelling.high
    net_soldier.Net.Mac.Spelling.low net_soldier.Net.Mac.digit
aimed = refl

validates : validate_domain (codes "Evil.example.") ≡ some (codes "evil.example")
unfolding validate_domain net_soldier.Prelude.is_empty net_soldier.Prelude.to_lower
    net_soldier.Prelude.trim_space net_soldier.Prelude.trim_suffix net_soldier.Prelude.split
validates = refl

validate_domain_plain_example :
    (length (codes "evil.example") ≤ 253)
    × (every is_host_byte (codes "evil.example") ≡ true)
    × (has_byte b'\n' (rule_of (codes "evil.example")) ≡ false)
validate_domain_plain_example = validate_domain_plain (codes "Evil.example.") validates

-- A service that keeps the rules.
abbrev keeping : AdGuard (List Text)
keeping = record { get_rules = λ w. some w; set_rules = λ rules w. some rules }

keeping-ReadsBack : ReadsBack keeping
keeping-ReadsBack rules w w' e = cc

abbrev before : List Text
before = codes "||ads.example^" ∷ []

abbrev during : List Text
during = codes "||ads.example^" ∷ codes "||evil.example^" ∷ []

applies : Sinkhole.apply keeping sample_action before ≡ (during, none)
unfolding Sinkhole.apply validate_domain net_soldier.Prelude.is_empty net_soldier.Prelude.to_lower
    net_soldier.Prelude.trim_space net_soldier.Prelude.trim_suffix net_soldier.Prelude.split
    net_soldier.Prelude.str_eq rule_of
applies = refl

reverts : Sinkhole.revert keeping sample_action during ≡ (before, none)
unfolding Sinkhole.revert validate_domain net_soldier.Prelude.is_empty net_soldier.Prelude.to_lower
    net_soldier.Prelude.trim_space net_soldier.Prelude.trim_suffix net_soldier.Prelude.split
    net_soldier.Prelude.str_eq rule_of
reverts = refl

apply-revert_example :
    (left : List Text) × (keeping.get_rules before ≡ some left)
    × (holds (rule_of (codes "evil.example")) left ≡ false)
    × (holds (rule_of (codes "evil.example")) before ≡ false → left ≡ before)
apply-revert_example =
    apply-revert keeping sample_action before during before keeping-ReadsBack validates refl applies
      reverts

-- A kernel that keeps the frames that were sent, and knows the gateway.
abbrev recording : Kernel (List Bytes)
recording = record { read_arp = λ w. none; open_socket = λ w. true; send = λ f w. (true, f ∷ w) }

abbrev parse_one : Text → Option Bytes
parse_one t = if str_eq t (codes "10.0.0.5") then some (10 ∷ 0 ∷ 0 ∷ 5 ∷ []) else none

abbrev idle : ArpDriver (List Bytes)
idle = record {
  hardware_addr = 2 ∷ 0 ∷ 0 ∷ 0 ∷ 0 ∷ 9 ∷ [];
  gateway_ip = 10 ∷ 0 ∷ 0 ∷ 1 ∷ [];
  guard = some Guard.empty;
  gateway_mac = 2 ∷ 0 ∷ 0 ∷ 0 ∷ 0 ∷ 1 ∷ [];
  gateway_at = 0;
  active = [];
  outside = [];
}

apply-Applied_example :
    Applied sample_net parse_one recording 7 sample_action idle
      (ArpIsolate.apply sample_net parse_one recording 7 sample_action idle)
apply-Applied_example = apply-Applied sample_net parse_one recording 7 sample_action idle

abbrev poisoning : ArpDriver (List Bytes)
poisoning = (ArpIsolate.apply sample_net parse_one recording 7 sample_action idle).1

revert-active_example :
    let after =
      (ArpIsolate.revert sample_net parse_one recording 8 false true sample_action
        poisoning).1.active in
    (lookup sample_action.id after ≡ none)
    × ((id : Text)
        → str_eq sample_action.id id ≡ false
        → lookup id after ≡ lookup id poisoning.active)
revert-active_example =
    revert-active sample_net parse_one recording 8 false true sample_action poisoning

-- A kernel whose neighbour table has the gateway.
abbrev neighbours : Kernel (List Bytes)
neighbours = record recording {
  read_arp = λ w. some (codes "IP HW Flags MAC\n10.0.0.1 0x1 0x2 02:00:00:00:00:01 * eth0\n");
}

abbrev gateway : GatewayAddr
gateway = record { text = codes "10.0.0.1"; v4 = some (10 ∷ 0 ∷ 0 ∷ 1 ∷ []) }

abbrev built : ArpDriver (List Bytes)
built = record {
  hardware_addr = 2 ∷ 0 ∷ 0 ∷ 0 ∷ 0 ∷ 9 ∷ [];
  gateway_ip = 10 ∷ 0 ∷ 0 ∷ 1 ∷ [];
  guard = some (record Guard.empty {
    macs = codes "020000000001" ∷ [];
    names = codes "default gateway" ∷ [];
  });
  gateway_mac = 2 ∷ 0 ∷ 0 ∷ 0 ∷ 0 ∷ 1 ∷ [];
  gateway_at = 4;
  active = [];
  outside = [];
}

builds :
    new_arp_isolate_driver sample_net neighbours 4
      (some gateway)
      (some (2 ∷ 0 ∷ 0 ∷ 0 ∷ 0 ∷ 9 ∷ []))
      (some Guard.empty)
      []
    ≡ inr built
unfolding new_arp_isolate_driver resolve_from_proc_arp net_soldier.Prelude.split ArpIsolate.fields
    net_soldier.Prelude.is_space str_eq net_soldier.Net.Mac.parse_mac net_soldier.Net.Mac.mac_text
    Guard.protect_name protect_mac net_soldier.Prelude.is_empty Guard.normalize_mac_key
    net_soldier.Prelude.to_lower net_soldier.Prelude.trim_space Guard.protect_ip ArpIsolate.ip_text
    net_soldier.Prelude.join net_soldier.Prelude.decimal
builds = refl

is_known :
    resolve_from_proc_arp (neighbours.read_arp []) gateway.text ≡ some (2 ∷ 0 ∷ 0 ∷ 0 ∷ 0 ∷ 1 ∷ [])
unfolding resolve_from_proc_arp net_soldier.Prelude.split ArpIsolate.fields
    net_soldier.Prelude.is_space str_eq net_soldier.Net.Mac.parse_mac net_soldier.Net.Mac.mac_text
is_known = refl

abbrev against_gateway : EnforcementAction
against_gateway = record sample_action { target_mac = codes "02-00-00-00-00-01" }

aimed_at_gateway : against_gateway.target_mac ≡ spell hyphens true (2 ∷ 0 ∷ 0 ∷ 0 ∷ 0 ∷ 1 ∷ [])
unfolding spell net_soldier.Net.Mac.Spelling.colon_text net_soldier.Net.Mac.Spelling.high
    net_soldier.Net.Mac.Spelling.low net_soldier.Net.Mac.digit
aimed_at_gateway = refl

-- What is left after a refused action and an hour.
abbrev an_hour_on : ArpDriver (List Bytes)
an_hour_on =
    (poison_tick neighbours 3600000000004 (10 ∷ 0 ∷ 0 ∷ 7 ∷ []) (2 ∷ 0 ∷ 0 ∷ 0 ∷ 0 ∷ 7 ∷ []) 0
      (ArpIsolate.apply sample_net parse_one neighbours 9 sample_action built).1).1

new_arp-spares_gateway_example :
    ((ArpIsolate.apply sample_net parse_one neighbours 3600000000009 against_gateway an_hour_on).0
      ≢ none)
    × ((ArpIsolate.apply sample_net parse_one neighbours 3600000000009 against_gateway an_hour_on).1
        ≡ an_hour_on)
new_arp-spares_gateway_example =
    new_arp-spares_gateway sample_net parse_one neighbours 4 3600000000009 gateway
      (2 ∷ 0 ∷ 0 ∷ 0 ∷ 0 ∷ 9 ∷ []) 2 0 0 0 0 1 Guard.empty [] built an_hour_on hyphens true
      against_gateway
      (omega arith, (omega arith, (omega arith, (omega arith, (omega arith, (omega arith, tt))))))
      builds is_known
      (ticked 3600000000004 (10 ∷ 0 ∷ 0 ∷ 7 ∷ []) (2 ∷ 0 ∷ 0 ∷ 0 ∷ 0 ∷ 7 ∷ []) 0
        (applied 9 sample_action at_once))
      aimed_at_gateway

-- The first pair of replies of an isolation.
isolates : (ArpIsolate.apply sample_net parse_one recording 7 sample_action idle).0 ≡ none
unfolding ArpIsolate.apply ArpIsolate.parse_target str_eq net_soldier.Net.Mac.parse_mac
    ArpIsolate.refusal_of check net_soldier.Prelude.is_empty Guard.normalize_mac_key
    net_soldier.Prelude.to_lower net_soldier.Prelude.trim_space ArpIsolate.gateway_hardware_addr
    ArpIsolate.send_poison ArpIsolate.send_arp
isolates = refl
