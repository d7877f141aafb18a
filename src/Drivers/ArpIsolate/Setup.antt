-- ===== src/Drivers/ArpIsolate/Setup.antt =====
-- arpisolate.go: NewARPIsolateDriver, and what it makes of the gateway. The warning on IP forwarding is
-- left out.
use net_soldier.Prelude.{
  ℕ, ◌≡◌, ◌≢◌, refl, ap, ◌∙◌, sym, arith, Bool, true, false, Option, none, some, [], ◌∷◌, Text,
  codes, ◌==◌, length, is_empty, if◌then◌else◌, ◌⊎◌, inl, inr,
}
use net_soldier.Net.Addr.{NetParser}
use net_soldier.Net.Mac.{mac_text}
use net_soldier.Net.Mac.Spelling.{AreBytes, bare_text, colon_text, high, low}
use net_soldier.Events.Action.{EnforcementAction}
use net_soldier.Policy.Allowlist.Macs.{Style, colons, spell}
use net_soldier.Drivers.Guard.{TargetGuard, Refusal, check, protect_mac, protect_ip, protect_name}
use net_soldier.Drivers.Guard.Growth.{guards-protect_name}
use net_soldier.Drivers.Guard.Spelling.{key-spell, guarded}
use net_soldier.Drivers.ArpIsolate.Lifetime.{Later, Guards, guarding, Later-Guards}
use net_soldier.Drivers.ArpIsolate.{
  Bytes, Kernel, ArpDriver, ArpError, gateway_required, no_interface, no_hardware_addr, unresolved,
  no_socket, not_ipv4, ip_text, resolve_from_proc_arp, parse_target, refusal_of, apply_to, apply,
}

-- The gateway's address: its text, and its four bytes if it is IPv4.
pub record GatewayAddr : Type 0 where
  pub text : Text
  pub v4 : Option Bytes

module _ {W : Type 0} (net : NetParser) (kernel : Kernel W) where
  protect_gateway : Bytes → Bytes → TargetGuard → TargetGuard
  protect_gateway ip mac g =
      protect_name (codes "default gateway")
        (protect_mac (mac_text mac) (protect_ip net (ip_text ip) g))

  made : ℕ → Option Bytes → Bytes → Bytes → Option TargetGuard → W → ArpError ⊎ ArpDriver W
  unfolding protect_gateway
  made now none hardware mac guard w = inl not_ipv4
  made now (some ip) hardware mac guard w = inr (record {
    hardware_addr = hardware;
    gateway_ip = ip;
    guard = elim guard [ none ↦ none | some g ↦ some (protect_gateway ip mac g) ];
    gateway_mac = mac;
    gateway_at = now;
    active = [];
    outside = w;
  })

  found : ℕ → Option Bytes → Bytes → Option Bytes → Option TargetGuard → W → ArpError ⊎ ArpDriver W
  unfolding made
  found now ip hardware none guard w = inl unresolved
  found now ip hardware (some mac) guard w =
      if kernel.open_socket w then made now ip hardware mac guard w else inl no_socket

  -- NewARPIsolateDriver, of the gateway and the hardware address of the interface, where there are any
  unfoldable pub new_arp_isolate_driver :
      ℕ → Option GatewayAddr → Option Bytes → Option TargetGuard → W → ArpError ⊎ ArpDriver W
  unfolding found
  new_arp_isolate_driver now none hardware guard w = inl gateway_required
  new_arp_isolate_driver now (some gateway) none guard w = inl no_interface
  new_arp_isolate_driver now (some gateway) (some hardware) guard w =
      if length hardware == 6
      then found now gateway.v4 hardware (resolve_from_proc_arp (kernel.read_arp w) gateway.text)
          guard w
      else inl no_hardware_addr

  then_inr :
      {D : Type 0} (b : Bool) (x : ArpError ⊎ D) (e : ArpError) (d : D)
      → (if b then x else inl e) ≡ inr d
      → x ≡ inr d
  then_inr true x e d h = h
  then_inr false x e d h = cc

  made-guard :
      (now : ℕ) (v4 : Option Bytes) (hardware mac : Bytes) (g : TargetGuard) (w : W)
      (d : ArpDriver W)
      → made now v4 hardware mac (some g) w ≡ inr d
      → (g' : TargetGuard) × (d.guard
          ≡ some (protect_name (codes "default gateway") (protect_mac (mac_text mac) g')))
  unfolding made protect_gateway
  made-guard now none hardware mac g w d h = cc
  made-guard now (some ip) hardware mac g w d h = (protect_ip net (ip_text ip) g, ground arith)

  new_arp-guard :
      (now : ℕ) (gateway : GatewayAddr) (hardware mac : Bytes) (g : TargetGuard) (w : W)
      (d : ArpDriver W)
      → new_arp_isolate_driver now (some gateway) (some hardware) (some g) w ≡ inr d
      → resolve_from_proc_arp (kernel.read_arp w) gateway.text ≡ some mac
      → (g' : TargetGuard) × (d.guard
          ≡ some (protect_name (codes "default gateway") (protect_mac (mac_text mac) g')))
  unfolding new_arp_isolate_driver found
  new_arp-guard now gateway hardware mac g w d h known =
      let usable : found now gateway.v4 hardware
            (resolve_from_proc_arp (kernel.read_arp w) gateway.text) (some g) w
          ≡ inr d =
        then_inr (length hardware == 6) _ no_hardware_addr d h in
      let resolved : found now gateway.v4 hardware (some mac) (some g) w ≡ inr d =
        sym (ap (λ o. found now gateway.v4 hardware o (some g) w) known) ∙ usable in
      made-guard now gateway.v4 hardware mac g w d
        (then_inr (kernel.open_socket w) _ no_socket d resolved)

-- The lower-case colon form is one of the spellings.
spell-mac_text :
    (b0 b1 b2 b3 b4 b5 : ℕ)
    → mac_text (b0 ∷ b1 ∷ b2 ∷ b3 ∷ b4 ∷ b5 ∷ [])
      ≡ spell colons false (b0 ∷ b1 ∷ b2 ∷ b3 ∷ b4 ∷ b5 ∷ [])
unfolding mac_text spell colon_text high low
spell-mac_text b0 b1 b2 b3 b4 b5 = refl

apply_refused :
    {W : Type 0} (net : NetParser) (parse_ipv4 : Text → Option Bytes) (kernel : Kernel W) (now : ℕ)
    (a : EnforcementAction) (t : ArpError ⊎ (Bytes × Bytes)) (r : Refusal) (d : ArpDriver W)
    → check net d.guard a.target_mac a.target_ip ≡ some r
    → ((apply_to net parse_ipv4 kernel now a t d).0 ≢ none)
      × ((apply_to net parse_ipv4 kernel now a t d).1 ≡ d)
unfolding apply_to refusal_of
apply_refused net parse_ipv4 kernel now a (inl e) r d h = ((λ e'. cc), refl)
apply_refused net parse_ipv4 kernel now a (inr (ip, mac)) r d h =
    rw (apply_to, refusal_of, h) ((λ e'. cc), refl)

-- A guard that protects an address refuses it.
guarding-check :
    (net : NetParser) (mac ip : Text) (o : Option TargetGuard)
    → guarding mac o ≡ true
    → check net o mac ip ≡ some (Refusal.protected_device mac)
unfolding guarding check
guarding-check net mac ip none h = cc
guarding-check net mac ip (some g) h = rw h refl

guarding-made :
    (b0 b1 b2 b3 b4 b5 : ℕ) (style : Style) (upper : Bool) (g : TargetGuard)
    → let six = b0 ∷ b1 ∷ b2 ∷ b3 ∷ b4 ∷ b5 ∷ [] in
      AreBytes six
      → guarding
          (spell style upper six)
          (some (protect_name (codes "default gateway") (protect_mac (mac_text six) g)))
        ≡ true
unfolding guarding
guarding-made b0 b1 b2 b3 b4 b5 style upper g h =
    let six = b0 ∷ b1 ∷ b2 ∷ b3 ∷ b4 ∷ b5 ∷ [] in
    guards-protect_name (codes "default gateway") (spell style upper six)
      (protect_mac (mac_text six) g)
    ∙ guarded (mac_text six) (spell style upper six) (bare_text false six) g
        (rw (spell-mac_text b0 b1 b2 b3 b4 b5) (key-spell b0 b1 b2 b3 b4 b5 h colons false))
        (key-spell b0 b1 b2 b3 b4 b5 h style upper) (unfold bare_text is_empty in refl)

-- The gateway's hardware address of six bytes, as it was when a driver with a guard was made is never isolated by it,
-- whatever Apply, Revert, the ticks of the loops and the network did since, also when the gateway
-- was resolved anew: an action that aims at that address, in any spelling and whatever its IP, is
-- answered with an error, starts no loop and sends nothing.
pub new_arp-spares_gateway :
    {W : Type 0} (net : NetParser) (parse_ipv4 : Text → Option Bytes) (kernel : Kernel W)
    (now later : ℕ) (gateway : GatewayAddr) (hardware : Bytes) (b0 b1 b2 b3 b4 b5 : ℕ)
    (g : TargetGuard) (w : W) (d e : ArpDriver W) (style : Style) (upper : Bool)
    (a : EnforcementAction)
    → let six = b0 ∷ b1 ∷ b2 ∷ b3 ∷ b4 ∷ b5 ∷ [] in
      AreBytes six
      → new_arp_isolate_driver net kernel now (some gateway) (some hardware) (some g) w ≡ inr d
      → resolve_from_proc_arp (kernel.read_arp w) gateway.text ≡ some six
      → Later net parse_ipv4 kernel d e
      → a.target_mac ≡ spell style upper six
      → ((apply net parse_ipv4 kernel later a e).0 ≢ none)
        × ((apply net parse_ipv4 kernel later a e).1 ≡ e)
unfolding apply Guards
new_arp-spares_gateway net parse_ipv4 kernel now later gateway hardware b0 b1 b2 b3 b4 b5 g w d e
      style upper a bytes made known life aimed =
    let six = b0 ∷ b1 ∷ b2 ∷ b3 ∷ b4 ∷ b5 ∷ [] in
    let (g', guard) = new_arp-guard net kernel now gateway hardware six g w d made known in
    let at_first : Guards kernel (spell style upper six) d =
      rw guard (guarding-made b0 b1 b2 b3 b4 b5 style upper g' bytes) in
    let checked : check net e.guard a.target_mac a.target_ip
        ≡ some (Refusal.protected_device (spell style upper six)) =
      rw aimed (
        guarding-check net (spell style upper six) a.target_ip e.guard
          (Later-Guards net parse_ipv4 kernel (spell style upper six) life at_first)) in
    apply_refused net parse_ipv4 kernel later a (parse_target net parse_ipv4 kernel a) _ e checked
