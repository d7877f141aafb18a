-- ===== src/Policy/Allowlist.antt =====
-- apps/killswitch-controller/internal/policy/allowlist.go: the devices that are never blocked. The
-- maps to `struct{}` are lists without repetition; each method holds the mutex.
pub mod Macs
pub mod Protection
pub mod Growth
use net_soldier.Prelude.{
  ℕ, ◌+◌, Bool, true, false, ◌&&◌, ◌||◌, not, Option, none, some, List, [], ◌∷◌, ◌++◌, Text, str_eq,
  is_empty, trim_space, to_lower, has_byte, keep, exists, length, ◌==◌, if◌then◌else◌,
}
use net_soldier.Net.Mac.{parse_mac, mac_text}
use net_soldier.Net.Addr.{
  Addr, Prefix, NetParser, addr_eq, is_4in6, unmap, with_zone, masked, prefix_contains,
}

pub record Allowlist : Type 0 where
  pub macs : List Text
  pub addrs : List Addr
  pub nets : List Prefix

abbrev pub empty : Allowlist
empty = record { macs = []; addrs = []; nets = [] }

-- strings.Map, dropping the separators
bare_hex : Text → Text
bare_hex = keep (λ r. not (r == b':' || r == b'-' || r == b'.'))

-- The loop that writes a colon before each pair of digits but the first.
with_colons : Text → Text
with_colons (h ∷ l ∷ c ∷ s) = h ∷ l ∷ b':' ∷ with_colons (c ∷ s)
with_colons s = s

lower_mac : Option (List ℕ) → Option Text
lower_mac none = none
lower_mac (some hw) = some (to_lower (mac_text hw))

-- What NormalizeMAC does once the white space is off.
normalize_trimmed : Text → Option Text
unfolding bare_hex with_colons lower_mac
normalize_trimmed s =
    let bare = bare_hex s in
    if is_empty s then none else elim (parse_mac s) [
      | some hw ↦ some (to_lower (mac_text hw))
      | none ↦ if length bare == 12 then lower_mac (parse_mac (with_colons bare)) else none
    ]

-- NormalizeMAC; none is its error.
unfoldable pub normalize_mac : Text → Option Text
unfolding normalize_trimmed
normalize_mac mac = normalize_trimmed (trim_space mac)

add_key : Text → List Text → List Text
add_key k ks = if exists (λ j. str_eq j k) ks then ks else ks ++ k ∷ []

add_addr : Addr → List Addr → List Addr
add_addr a as' = if exists (λ b. addr_eq b a) as' then as' else as' ++ a ∷ []

-- AddMAC; none is its error, which leaves the list as it was.
unfoldable pub add_mac : Text → Allowlist → Option Allowlist
unfolding add_key
add_mac mac a = elim (normalize_mac mac) [
  | none ↦ none
  | some norm ↦ some (record a { macs = add_key norm a.macs })
]

-- canonicalAddr
unfoldable pub canonical_addr : Addr → Addr
canonical_addr addr = with_zone [] (if is_4in6 addr then unmap addr else addr)

-- RemoveMAC
unfoldable pub remove_mac : Text → Allowlist → Allowlist
remove_mac mac a = elim (normalize_mac mac) [
  | none ↦ a
  | some norm ↦ record a { macs = keep (λ k. not (str_eq k norm)) a.macs }
]

-- Whether a hardware address is listed; an address that does not parse is not.
has_mac : Text → Allowlist → Bool
has_mac mac a = elim (normalize_mac mac) [
  | none ↦ false
  | some norm ↦ exists (λ k. str_eq k norm) a.macs
]

has_addr : Addr → Allowlist → Bool
has_addr canon a =
    exists (λ b. addr_eq b canon) a.addrs || exists (λ p. prefix_contains p canon) a.nets

-- Len
unfoldable pub len : Allowlist → ℕ
len a = length a.macs + length a.addrs + length a.nets

module _ (net : NetParser) where
  add_net : Option Prefix → Allowlist → Option Allowlist
  add_net none a = none
  add_net (some p) a = some (record a { nets = a.nets ++ masked p ∷ [] })

  add_single : Option Addr → Allowlist → Option Allowlist
  add_single none a = none
  add_single (some addr) a = some (record a { addrs = add_addr (canonical_addr addr) a.addrs })

  -- AddIP; none is its error, which leaves the list as it was.
  unfoldable pub add_ip : Text → Allowlist → Option Allowlist
  unfolding add_net add_single add_addr canonical_addr
  add_ip entry a =
      let s = trim_space entry in
      if is_empty s
      then none
      else if has_byte b'/' s
      then add_net (net.parse_prefix s) a
      else add_single (net.parse_addr s) a

  -- RemoveIP
  unfoldable pub remove_ip : Text → Allowlist → Allowlist
  remove_ip ip a = elim (net.parse_addr (trim_space ip)) [
    | none ↦ a
    | some addr ↦ record a { addrs = keep (λ b. not (addr_eq b (canonical_addr addr))) a.addrs }
  ]

  has_ip : Text → Allowlist → Bool
  has_ip ip a = elim (net.parse_addr (trim_space ip)) [
    | none ↦ false
    | some addr ↦ has_addr (canonical_addr addr) a
  ]

  -- Contains
  unfoldable pub contains : Text → Text → Allowlist → Bool
  unfolding has_mac has_ip has_addr
  contains mac ip a = (not (is_empty mac) && has_mac mac a) || (not (is_empty ip) && has_ip ip a)
