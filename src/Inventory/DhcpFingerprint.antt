-- ===== src/Inventory/DhcpFingerprint.antt =====
-- apps/device-inventory/internal/dhcpfp/dhcpfp.go: what DHCP metadata says of a device.
use net_soldier.Prelude.{
  ◌≡◌, refl, ◌||◌, ◌&&◌, Option, none, some, [], ◌∷◌, Text, codes, is_empty, str_eq, to_lower,
  has_prefix, contains_text, lookup, Assoc, if◌then◌else◌,
}

record Profile : Type 0 where
  os : Text
  device_type : Text

profile : Text → Text → Profile
profile os device_type = record { os = os; device_type = device_type }

-- The tests of matchVendorClass, in their order, on a vendor class in lower case.
vendor_profile : Text → Option Profile
unfolding profile
vendor_profile lower =
    if has_prefix (codes "android-dhcp-") lower
    then some (profile (codes "Android") (codes "phone"))
    else if contains_text (codes "msft 5.0") lower
    then some (profile (codes "Windows") (codes "desktop"))
    else if contains_text (codes "msft ") lower
    then some (profile (codes "Windows") (codes "desktop"))
    else if has_prefix (codes "dhcpcd") lower && contains_text (codes "linux") lower
    then some (profile (codes "Linux") (codes "desktop"))
    else if has_prefix (codes "dhcpcd") lower
    then some (profile (codes "Linux") (codes "desktop"))
    else if has_prefix (codes "udhcp") lower
    then some (profile (codes "Linux") (codes "iot"))
    else if contains_text (codes "roku") lower
    then some (profile (codes "Roku OS") (codes "tv"))
    else if contains_text (codes "xbox") lower
    then some (profile (codes "Xbox") (codes "console"))
    else if contains_text (codes "playstation") lower
        || has_prefix (codes "ps5") lower
        || has_prefix (codes "ps4") lower
    then some (profile (codes "PlayStation") (codes "console"))
    else if contains_text (codes "printer") lower || contains_text (codes "hp ") lower
    then some (profile (codes "Embedded") (codes "printer"))
    else if contains_text (codes "chromecast") lower || contains_text (codes "chrome") lower
    then some (profile (codes "ChromeOS") (codes "iot"))
    else none

match_vendor_class : Text → Option Profile
unfolding vendor_profile
match_vendor_class vc = if is_empty vc then none else vendor_profile (to_lower vc)

-- prlDB
prl_db : Assoc Profile
unfolding profile
prl_db =
    (codes "1,121,3,6,15,119,252", profile (codes "iOS") (codes "phone"))
    ∷ (codes "1,121,3,6,15,119,252,95,44,46", profile (codes "iOS") (codes "phone"))
    ∷ (codes "1,3,6,15,119,252", profile (codes "iOS") (codes "phone"))
    ∷ (codes "1,3,6,15,119,252,67,13", profile (codes "iOS") (codes "phone"))
    ∷ (codes "1,121,3,6,15,119,252,95,44,46,67", profile (codes "iOS") (codes "phone"))
    ∷ (codes "1,121,3,6,15,119,252,95,44,46,101", profile (codes "macOS") (codes "laptop"))
    ∷ (codes "1,3,6,15,119,95,252,44,46", profile (codes "macOS") (codes "laptop"))
    ∷ (codes "1,3,6,15,119,95,252,44,46,47", profile (codes "macOS") (codes "laptop"))
    ∷ (codes "1,121,3,6,15,119,252,95,44,46,47", profile (codes "macOS") (codes "laptop"))
    ∷ (codes "1,3,6,15,119,252,95", profile (codes "tvOS") (codes "tv"))
    ∷ (
      codes "1,3,6,15,31,33,43,44,46,47,119,121,249,252",
      profile (codes "Windows") (codes "desktop"),
    )
    ∷ (codes "1,15,3,6,44,46,47,31,33,121,249,252,43", profile (codes "Windows") (codes "desktop"))
    ∷ (codes "1,15,3,6,44,46,47,31,33,121,249,252", profile (codes "Windows") (codes "desktop"))
    ∷ (
      codes "1,3,6,15,31,33,43,44,46,47,119,121,249,252,0",
      profile (codes "Windows") (codes "desktop"),
    )
    ∷ (codes "1,15,3,6,44,46,47,31,33,249,43", profile (codes "Windows") (codes "desktop"))
    ∷ (codes "1,15,3,6,44,46,47,31,33,249,43,252", profile (codes "Windows") (codes "desktop"))
    ∷ (codes "1,3,6,15,26,28,51,58,59,43", profile (codes "Android") (codes "phone"))
    ∷ (codes "1,33,3,6,15,26,28,51,58,59,43", profile (codes "Android") (codes "phone"))
    ∷ (codes "1,3,6,15,26,28,51,58,59", profile (codes "Android") (codes "phone"))
    ∷ (codes "1,3,6,15,26,28,51,58,59,43,114", profile (codes "Android") (codes "phone"))
    ∷ (
      codes "1,121,33,3,6,12,15,26,28,51,54,58,59,119,43",
      profile (codes "ChromeOS") (codes "laptop"),
    )
    ∷ (codes "1,28,2,3,15,6,119,12,44,47,26,121,42", profile (codes "Linux") (codes "desktop"))
    ∷ (codes "1,28,2,121,15,6,12,40,41,42,26,119,3", profile (codes "Linux") (codes "desktop"))
    ∷ (codes "1,28,2,3,15,6,12", profile (codes "Linux") (codes "desktop"))
    ∷ (codes "1,28,2,3,15,6,119,12,44,47,26,121", profile (codes "Linux") (codes "desktop"))
    ∷ (codes "1,2,3,6,12,15,26,28,121,119", profile (codes "Linux") (codes "desktop"))
    ∷ (codes "1,3,6,12,15,28,42,125", profile (codes "Tizen") (codes "tv"))
    ∷ (codes "1,3,6,15,28,33", profile (codes "webOS") (codes "tv"))
    ∷ (codes "1,3,28,6", profile (codes "Embedded") (codes "tv"))
    ∷ (codes "1,3,6,15,28", profile (codes "Embedded") (codes "iot"))
    ∷ (codes "1,3,6,12,15,28,42", profile (codes "Embedded") (codes "iot"))
    ∷ (codes "1,3,6,15", profile (codes "Embedded") (codes "iot"))
    ∷ (codes "1,3,6", profile (codes "Embedded") (codes "iot"))
    ∷ (codes "1,3,6,28", profile (codes "Embedded") (codes "iot"))
    ∷ (codes "1,3,6,15,44,47,12", profile (codes "Embedded") (codes "printer"))
    ∷ (codes "6,3,1,15,66,67,13,44,12", profile (codes "Embedded") (codes "printer"))
    ∷ (codes "1,66,6,3,15,150", profile (codes "IOS") (codes "router"))
    ∷ (codes "1,3,6,15,150,43,125", profile (codes "IOS") (codes "router"))
    ∷ []

match_fingerprint : Text → Option Profile
match_fingerprint fp = if is_empty fp then none else lookup fp prl_db

-- Lookup
lookup_profile : Text → Text → Option Profile
unfolding match_vendor_class match_fingerprint
lookup_profile fingerprint vendor_class = elim (match_vendor_class vendor_class) [
  | some p ↦ some p
  | none ↦ match_fingerprint fingerprint
]

by_vendor :
    lookup_profile (codes "1,3,6") (codes "MSFT 5.0")
    ≡ some (record { os = codes "Windows"; device_type = codes "desktop" })
unfolding lookup_profile is_empty to_lower has_prefix contains_text
by_vendor = refl

by_fingerprint :
    lookup_profile (codes "1,3,6,28") []
    ≡ some (record { os = codes "Embedded"; device_type = codes "iot" })
unfolding lookup_profile is_empty lookup str_eq prl_db
by_fingerprint = refl

unknown : lookup_profile (codes "1,2") (codes "acme") ≡ none
unfolding lookup_profile is_empty to_lower has_prefix contains_text lookup str_eq prl_db
unknown = refl
