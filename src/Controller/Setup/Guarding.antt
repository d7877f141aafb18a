-- ===== src/Controller/Setup/Guarding.antt =====
-- The guard that main builds knows the devices of the allowlist.
use net_soldier.Prelude.{
  ℕ, ◌≡◌, refl, sym, ap, ◌∙◌, inl, inr, Bool, true, false, some, List, [], ◌∷◌, arith, Text, exists,
  str_eq, str_eq_iff, is_empty, Bool-cases,
}
use net_soldier.Net.Mac.{mac_text}
use net_soldier.Net.Mac.Spelling.{AreBytes, colon_text, high, low, bare_text}
use net_soldier.Net.Addr.{NetParser}
use net_soldier.Policy.Allowlist.{contains}
use net_soldier.Policy.Allowlist.Macs.{Style, colons, spell, normalize-spell}
use net_soldier.Policy.Allowlist.Protection.{listed_of_contains}
use net_soldier.Policy.Rules.{Policy}
use net_soldier.Policy.Env.{Env}
use net_soldier.Drivers.Guard.{
  TargetGuard, Refusal, normalize_mac_key, protect_mac, guards_mac, check,
}
use net_soldier.Drivers.Guard.Spelling.{key-spell, guarded}
use net_soldier.Drivers.Guard.Growth.{guards_after}
use net_soldier.Controller.Setup.{build_guard, protect_macs}

guards_after_all :
    (mac : Text) (macs : List Text) (g : TargetGuard)
    → guards_mac mac g ≡ true
    → guards_mac mac (protect_macs macs g) ≡ true
unfolding protect_macs
guards_after_all mac [] g h = h
guards_after_all mac (m ∷ ms) g h =
    guards_after_all mac ms (protect_mac m g) (guards_after mac m g h)

guards_listed :
    (mac listed : Text) (macs : List Text) (g : TargetGuard)
    → normalize_mac_key mac ≡ normalize_mac_key listed
    → is_empty (normalize_mac_key listed) ≡ false
    → exists (λ k. str_eq k listed) macs ≡ true
    → guards_mac mac (protect_macs macs g) ≡ true
unfolding protect_macs
guards_listed mac listed [] g e full h = cc
guards_listed mac listed (m ∷ ms) g e full h = elim (Bool-cases (str_eq m listed)) [
  | inl same ↦ guards_after_all mac ms (protect_mac m g) (
      guarded m mac (normalize_mac_key listed) g
        (ap normalize_mac_key ((str_eq_iff m listed).0 same)) e full)
  | inr other ↦ guards_listed mac listed ms (protect_mac m g) e full (ground arith)
]

mac_text_lem :
    (b0 b1 b2 b3 b4 b5 : ℕ)
    → mac_text (b0 ∷ b1 ∷ b2 ∷ b3 ∷ b4 ∷ b5 ∷ [])
      ≡ spell colons false (b0 ∷ b1 ∷ b2 ∷ b3 ∷ b4 ∷ b5 ∷ [])
unfolding mac_text spell colon_text high low
mac_text_lem b0 b1 b2 b3 b4 b5 = refl

-- A device that the policy's allowlist knows by a hardware address of six bytes is refused by the guard
-- that the drivers share, in whatever spelling an action names it, and whatever its IP.
pub build_guard_refuses :
    (net : NetParser) (getenv : Env) (p : Policy) (b0 b1 b2 b3 b4 b5 : ℕ) (style style' : Style)
    (upper upper' : Bool) (ip : Text)
    → let six = b0 ∷ b1 ∷ b2 ∷ b3 ∷ b4 ∷ b5 ∷ [] in
      AreBytes six
      → contains net (spell style upper six) [] p.allowlist ≡ true
      → check net (some (build_guard net getenv p)) (spell style' upper' six) ip
        ≡ some (Refusal.protected_device (spell style' upper' six))
unfolding check build_guard
build_guard_refuses net getenv p b0 b1 b2 b3 b4 b5 style style' upper upper' ip h known =
    let six = b0 ∷ b1 ∷ b2 ∷ b3 ∷ b4 ∷ b5 ∷ [] in
    let own : normalize_mac_key (mac_text six) ≡ bare_text false six =
      rw (mac_text_lem b0 b1 b2 b3 b4 b5) (key-spell b0 b1 b2 b3 b4 b5 h colons false) in
    let listed : exists (λ k. str_eq k (mac_text six)) p.allowlist.macs ≡ true =
      listed_of_contains net _ _ p.allowlist (normalize-spell b0 b1 b2 b3 b4 b5 h style upper)
        known in
    rw
      (guards_listed (spell style' upper' six) (mac_text six) p.allowlist.macs _
        (key-spell b0 b1 b2 b3 b4 b5 h style' upper' ∙ sym own)
        (rw own (unfold bare_text is_empty in refl)) listed)
      refl
