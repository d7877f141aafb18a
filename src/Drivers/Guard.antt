-- ===== src/Drivers/Guard.antt =====
-- apps/killswitch-controller/internal/drivers/guard.go: the targets that no driver may be turned
-- against. The labels of ProtectName are for log lines and stay in `names`.
pub mod Spelling
pub mod Growth
use net_soldier.Prelude.{
  ℕ, Bool, true, false, not, ◌&&◌, ◌||◌, Option, none, some, List, [], ◌∷◌, ◌++◌, Text, is_empty,
  trim_space, to_lower, has_byte, exists, str_eq, length, leb, ◌==◌, if◌then◌else◌,
}
use net_soldier.Net.Addr.{
  Addr, Prefix, NetParser, addr_eq, is_4in6, unmap, with_zone, masked, prefix_contains,
}

pub record TargetGuard : Type 0 where
  pub ips : List Addr
  pub macs : List Text
  pub nets : List Prefix
  pub names : List Text

abbrev pub empty : TargetGuard
empty = record { ips = []; macs = []; nets = []; names = [] }

-- The errors of `Check`.
pub data Refusal : Type 0 where
  protected_device protected_address : Text → Refusal
  protected_range : Prefix → Text → Refusal

-- normalizeAddr
unfoldable pub normalize_addr : Addr → Addr
normalize_addr addr = with_zone [] (if is_4in6 addr then unmap addr else addr)

hex_letter : ℕ → Bool
hex_letter r = (leb b'0' r && leb r b'9') || (leb b'a' r && leb r b'f')

separator : ℕ → Bool
separator r = r == b':' || r == b'-' || r == b'.'

-- The loop over the letters: none is the early return of the empty key.
key_letters : Text → Option Text
unfolding hex_letter separator
key_letters [] = some []
key_letters (r ∷ s) =
    let rest = key_letters s in
    if hex_letter r
    then elim rest [ none ↦ none | some t ↦ some (r ∷ t) ]
    else if separator r
    then rest
    else none

of_twelve : Option Text → Text
of_twelve none = []
of_twelve (some t) = if length t == 12 then t else []

-- normalizeMACKey
unfoldable pub normalize_mac_key : Text → Text
unfolding key_letters of_twelve
normalize_mac_key mac = of_twelve (key_letters (to_lower (trim_space mac)))

add_key : Text → List Text → List Text
add_key k ks = if exists (λ j. str_eq j k) ks then ks else ks ++ k ∷ []

add_addr : Addr → List Addr → List Addr
add_addr x xs = if exists (λ y. addr_eq y x) xs then xs else xs ++ x ∷ []

-- ProtectMAC
unfoldable pub protect_mac : Text → TargetGuard → TargetGuard
unfolding add_key
protect_mac mac g =
    let key = normalize_mac_key mac in
    if is_empty key then g else record g { macs = add_key key g.macs }

-- ProtectName
unfoldable pub protect_name : Text → TargetGuard → TargetGuard
protect_name name g = record g { names = g.names ++ name ∷ [] }

find_net : Addr → List Prefix → Option Prefix
find_net x [] = none
find_net x (p ∷ ps) = let rest = find_net x ps in if prefix_contains p x then some p else rest

-- Whether the hardware address is protected.
pub guards_mac : Text → TargetGuard → Bool
guards_mac mac g =
    let key = normalize_mac_key mac in not (is_empty key) && exists (λ j. str_eq j key) g.macs

module _ (net : NetParser) where
  protect_net : Option Prefix → TargetGuard → TargetGuard
  protect_net none g = g
  protect_net (some p) g = record g { nets = g.nets ++ masked p ∷ [] }

  protect_addr : Option Addr → TargetGuard → TargetGuard
  protect_addr none g = g
  protect_addr (some x) g = record g { ips = add_addr (normalize_addr x) g.ips }

  -- ProtectIP
  unfoldable pub protect_ip : Text → TargetGuard → TargetGuard
  unfolding protect_net protect_addr add_addr
  protect_ip entry g =
      let s = trim_space entry in
      if is_empty s
      then g
      else if has_byte b'/' s
      then protect_net (net.parse_prefix s) g
      else protect_addr (net.parse_addr s) g

  -- The checks of an address that parsed.
  check_addr : Text → Addr → TargetGuard → Option Refusal
  check_addr ip canon g =
      if exists (λ y. addr_eq y canon) g.ips
      then some (protected_address ip)
      else elim (find_net canon g.nets) [ none ↦ none | some p ↦ some (protected_range p ip) ]

  check_ip : Text → TargetGuard → Option Refusal
  unfolding check_addr find_net
  check_ip ip g =
      let s = trim_space ip in
      if is_empty s
      then none
      else elim (net.parse_addr s) [ none ↦ none | some x ↦ check_addr ip (normalize_addr x) g ]

  -- Check; an absent guard is the nil receiver.
  unfoldable pub check : Option TargetGuard → Text → Text → Option Refusal
  unfolding check_ip guards_mac
  check none mac ip = none
  check (some g) mac ip = if guards_mac mac g then some (protected_device mac) else check_ip ip g
