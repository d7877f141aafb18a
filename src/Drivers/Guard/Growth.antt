-- ===== src/Drivers/Guard/Growth.antt =====
-- Protecting one more device never takes the protection of another away.
use net_soldier.Prelude.{◌≡◌, some, true, arith, refl, [], ◌∷◌, Text, exists-append, str_eq}
use net_soldier.Net.Addr.{NetParser}
use net_soldier.Drivers.Guard.{
  TargetGuard, normalize_mac_key, protect_mac, protect_name, guards_mac, add_key, check, check_ip,
}

pub guards_after :
    (mac other : Text) (g : TargetGuard)
    → guards_mac mac g ≡ true
    → guards_mac mac (protect_mac other g) ≡ true
unfolding guards_mac protect_mac add_key
guards_after mac other g h = ground (
  arith,
  exists-append (λ j. str_eq j (normalize_mac_key mac)) g.macs (normalize_mac_key other ∷ []),
)

-- The label of ProtectName protects nothing by itself.
pub check-protect_name :
    (net : NetParser) (label : Text) (g : TargetGuard) (mac ip : Text)
    → check net (some (protect_name label g)) mac ip ≡ check net (some g) mac ip
unfolding check check_ip guards_mac protect_name
check-protect_name net label g mac ip = refl

pub guards-protect_name :
    (label mac : Text) (g : TargetGuard) → guards_mac mac (protect_name label g) ≡ guards_mac mac g
unfolding guards_mac protect_name
guards-protect_name label mac g = refl
