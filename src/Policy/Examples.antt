-- ===== src/Policy/Examples.antt =====
-- Tests and examples of the policy and of the allowlist.
use net_soldier.Prelude.{
  ◌≡◌, ◌≢◌, ◌≤◌, ◌↔◌, refl, sym, inl, inr, Bool, true, false, Option, none, some, List, [], ◌∷◌,
  Text, codes, pos, arith, leb_ℤ, str_eq, is_empty, trim_space, has_byte, if◌then◌else◌,
}
use net_soldier.Net.Mac.{mac_text}
use net_soldier.Net.Mac.Spelling.{AreBytes}
use net_soldier.Net.Addr.{v4, v6, Prefix, masked, is_4in6, unmap, with_zone}
use net_soldier.Net.Samples.{sample_net}
use net_soldier.Events.Examples.{sample_event}
use net_soldier.Policy.Allowlist
use net_soldier.Policy.Allowlist.{
  Allowlist, normalize_mac, add_mac, add_ip, contains, canonical_addr,
}
use net_soldier.Policy.Allowlist.Macs.{hyphens, bare, spell}
use net_soldier.Policy.Allowlist.Protection.{contains-add_mac, contains-add_ip, mapped_net_gap}
use net_soldier.Policy.Rules.{Policy, auto_block, evaluate, default_policy, severity_rank}
use net_soldier.Policy.Rules.Gates.{IsBlockable, evaluate-auto_block_iff}
use net_soldier.Policy.Rules.Monotone.{level, evaluate_monotone}
use net_soldier.Policy.Env.{Env, load_from_env}
use net_soldier.Policy.Env.Bounds.{IsSound, load_from_env-IsSound}

bytes : AreBytes (2 ∷ 0 ∷ 171 ∷ 205 ∷ 16 ∷ 255 ∷ [])
bytes = (omega arith, (omega arith, (omega arith, (omega arith, (omega arith, (omega arith, tt))))))

contains-add_mac_example :
    (a' : Allowlist) × (add_mac
        (spell hyphens true (2 ∷ 0 ∷ 171 ∷ 205 ∷ 16 ∷ 255 ∷ []))
        Allowlist.empty
      ≡ some a')
    × (contains sample_net (spell bare false (2 ∷ 0 ∷ 171 ∷ 205 ∷ 16 ∷ 255 ∷ [])) [] a' ≡ true)
contains-add_mac_example =
    contains-add_mac sample_net 2 0 171 205 16 255 hyphens bare true false [] Allowlist.empty bytes

full_text : is_empty (trim_space (codes "10.0.0.5")) ≡ false
unfolding is_empty trim_space
full_text = refl

single : has_byte b'/' (trim_space (codes "10.0.0.5")) ≡ false
unfolding trim_space
single = refl

parses_entry : sample_net.parse_addr (trim_space (codes "10.0.0.5")) ≡ some (v4 167772165)
unfolding trim_space str_eq
parses_entry = refl

full_mapped : is_empty (codes "::ffff:10.0.0.5") ≡ false
unfolding is_empty
full_mapped = refl

parses_mapped :
    sample_net.parse_addr (trim_space (codes "::ffff:10.0.0.5")) ≡ some (v6 281470849515525 [])
unfolding trim_space str_eq
parses_mapped = refl

same_form : canonical_addr (v6 281470849515525 []) ≡ canonical_addr (v4 167772165)
unfolding canonical_addr is_4in6 unmap with_zone
same_form = refl

is_mapped : is_4in6 (v6 281470849515525 []) ≡ true
unfolding is_4in6
is_mapped = refl

contains-add_ip_example :
    (a' : Allowlist) × (add_ip sample_net (codes "10.0.0.5") Allowlist.empty ≡ some a')
    × (contains sample_net [] (codes "::ffff:10.0.0.5") a' ≡ true)
contains-add_ip_example =
    contains-add_ip sample_net (codes "10.0.0.5") [] (codes "::ffff:10.0.0.5") (v4 167772165)
      (v6 281470849515525 []) Allowlist.empty full_text single parses_entry full_mapped
      parses_mapped same_form

abbrev one_mac : Allowlist
one_mac = record { macs = codes "02:00:ab:cd:10:ff" ∷ []; addrs = []; nets = [] }

abbrev mac_and_ip : Allowlist
mac_and_ip = record { macs = codes "02:00:ab:cd:10:ff" ∷ []; addrs = v4 167772165 ∷ []; nets = [] }

adds_ip : add_ip sample_net (codes "10.0.0.5") one_mac ≡ some mac_and_ip
unfolding add_ip is_empty trim_space str_eq with_zone is_4in6
adds_ip = refl

listed : contains sample_net (codes "0200.ABCD.10FF") [] one_mac ≡ true
unfolding contains is_empty normalize_mac trim_space net_soldier.Net.Mac.parse_mac str_eq
    net_soldier.Prelude.to_lower mac_text
listed = refl

abbrev mapped_net : Prefix
mapped_net = record { addr = v6 281470849515525 []; bits = 120 }

no_mac : normalize_mac [] ≡ none
unfolding normalize_mac is_empty trim_space
no_mac = refl

mapped_net_gap_example :
    contains sample_net []
      (codes "::ffff:10.0.0.5")
      (record { macs = []; addrs = []; nets = masked mapped_net ∷ [] })
    ≡ false
mapped_net_gap_example =
    mapped_net_gap sample_net mapped_net (v6 281470849515525 []) [] (codes "::ffff:10.0.0.5")
      is_mapped is_mapped parses_mapped no_mac

evaluate-auto_block_iff_example :
    ((evaluate sample_net default_policy sample_event).action ≡ auto_block)
    ↔ IsBlockable sample_net default_policy sample_event
evaluate-auto_block_iff_example = evaluate-auto_block_iff sample_net default_policy sample_event

-- The event does get blocked by the default policy.
blocks_event : (evaluate sample_net default_policy sample_event).action ≡ auto_block
unfolding evaluate contains is_empty str_eq trim_space default_policy severity_rank
    net_soldier.Policy.Rules.auto_block_blocked_by net_soldier.Events.Detection.has_known_bad_signal
    net_soldier.Events.Detection.known_bad_signals net_soldier.Events.Detection.is_known_bad_signal
    net_soldier.Events.Detection.contains net_soldier.Policy.Rules.corroborated
blocks_event = refl

no_lower_rank : severity_rank (codes "medium") ≤ severity_rank (codes "high")
unfolding severity_rank str_eq
no_lower_rank = omega arith

evaluate_monotone_example :
    level
      (evaluate sample_net default_policy
        (record sample_event { confidence = pos 60; severity = codes "medium" })).action
    ≤ level
        (evaluate sample_net default_policy
          (record sample_event { confidence = pos 70; severity = codes "high" })).action
evaluate_monotone_example =
    evaluate_monotone sample_net default_policy
      (record sample_event { confidence = pos 60; severity = codes "medium" }) (pos 70)
      (codes "high") refl no_lower_rank

-- A threshold out of range, and a severity with a typo.
abbrev careless : Env
careless name =
    if str_eq name (codes "POLICY_AUTO_CONFIDENCE")
    then codes "250"
    else if str_eq name (codes "POLICY_AUTO_SEVERITY")
    then codes "critcal"
    else []

load_from_env-IsSound_example : IsSound (load_from_env sample_net careless)
load_from_env-IsSound_example = load_from_env-IsSound sample_net careless
