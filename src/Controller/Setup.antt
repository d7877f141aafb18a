-- ===== src/Controller/Setup.antt =====
-- main of apps/killswitch-controller/cmd/killswitch-controller/main.go: what is decided once, from
-- the environment, the loaded policy and the drivers that could be built.
pub mod Guarding
mod Examples
use net_soldier.Prelude.{
  ℕ, Bool, true, ◌||◌, Option, none, some, List, [], ◌∷◌, ◌++◌, Text, codes, ℤ, pos, negsuc,
  is_empty, to_lower, atoi, str_eq, map, ltb, if◌then◌else◌, ◌==◌,
}
use net_soldier.Net.Addr.{NetParser}
use net_soldier.Events.Action.{action_dns_sinkhole, action_arp_isolate, action_switch_acl}
use net_soldier.Policy.Allowlist.{Allowlist, len}
use net_soldier.Policy.Rules.{Policy}
use net_soldier.Policy.Env.{Env}
use net_soldier.Drivers.{Driver}
use net_soldier.Drivers.Guard
use net_soldier.Drivers.Guard.{TargetGuard, protect_ip, protect_mac}

-- envOr
unfoldable pub env_or : Env → Text → Text → Text
env_or getenv key fallback = if is_empty (getenv key) then fallback else getenv key

positive_or : ℕ → Option ℤ → ℕ
positive_or fallback none = fallback
positive_or fallback (some (negsuc n)) = fallback
positive_or fallback (some (pos n)) = if ltb 0 n then n else fallback

-- envInt
unfoldable pub env_int : Env → Text → ℕ → ℕ
unfolding positive_or
env_int getenv key fallback =
    if is_empty (getenv key) then fallback else positive_or fallback (atoi (getenv key))

-- allowEmptyAllowlist
unfoldable pub allow_empty_allowlist : Env → Bool
allow_empty_allowlist getenv =
    let v = to_lower (getenv (codes "POLICY_ALLOW_EMPTY_ALLOWLIST")) in
    str_eq v (codes "1") || str_eq v (codes "true") || str_eq v (codes "yes")

-- autoBlockAllowed
unfoldable pub auto_block_allowed : Env → Policy → Bool
auto_block_allowed getenv p = if len p.allowlist == 0 then allow_empty_allowlist getenv else true

protect_ips : NetParser → List Text → TargetGuard → TargetGuard
protect_ips net [] g = g
protect_ips net (ip ∷ ips) g = protect_ips net ips (protect_ip net ip g)

protect_macs : List Text → TargetGuard → TargetGuard
protect_macs [] g = g
protect_macs (mac ∷ macs) g = protect_macs macs (protect_mac mac g)

-- Allowlist.IPs
ips_of : NetParser → Allowlist → List Text
ips_of net a = map net.addr_text a.addrs ++ map net.prefix_text a.nets

-- The guard that the drivers share.
unfoldable pub build_guard : NetParser → Env → Policy → TargetGuard
unfolding protect_ips protect_macs ips_of
build_guard net getenv p =
    let gateway = getenv (codes "ARP_GATEWAY_IP") in
    let g = if is_empty gateway then Guard.empty else protect_ip net gateway Guard.empty in
    protect_macs p.allowlist.macs (protect_ips net (ips_of net p.allowlist) g)

vlan_of : Option ℤ → Option ℕ
vlan_of none = none
vlan_of (some (negsuc n)) = none
vlan_of (some (pos n)) = if ltb 4094 n then none else some n

-- SWITCH_QUARANTINE_VLAN: none where no switch driver is built.
unfoldable pub switch_vlan : Env → Option ℕ
unfolding vlan_of
switch_vlan getenv =
    let v = getenv (codes "SWITCH_QUARANTINE_VLAN") in
    if is_empty (getenv (codes "SWITCH_WEBHOOK_URL"))
    then none
    else if is_empty v
    then some 0
    else vlan_of (atoi v)

-- resolve: the driver map, of which the sinkhole is always there.
unfoldable pub resolve_driver :
    {W : Type 0} → Driver W → Option (Driver W) → Option (Driver W) → Text → Option (Driver W)
resolve_driver sinkhole arp switch action_type =
    if str_eq action_type action_dns_sinkhole
    then some sinkhole
    else if str_eq action_type action_arp_isolate
    then arp
    else if str_eq action_type action_switch_acl
    then switch
    else none
