-- ===== src/Net/Addr.antt =====
-- netip.Addr and netip.Prefix. An address is a number of 32 or 128 bits, the latter with a zone.
-- The parsers of their texts are parameters of the program that uses them.
use net_soldier.Prelude.{
  ℕ, ◌-◌, ◌*◌, ◌/◌, ◌%◌, ◌^◌, Bool, false, ◌&&◌, Option, [], Text, str_eq, is_empty, ◌==◌,
  if◌then◌else◌,
}

pub data Addr : Type 0 where
  v4 : ℕ → Addr
  v6 : ℕ → Text → Addr

unfoldable pub addr_eq : Addr → Addr → Bool
addr_eq (v4 m) (v4 n) = m == n
addr_eq (v6 m y) (v6 n z) = m == n && str_eq y z
addr_eq _ _ = false

-- Is4In6: the 96 leading bits are those of ::ffff:0:0/96.
unfoldable pub is_4in6 : Addr → Bool
is_4in6 (v4 n) = false
is_4in6 (v6 n z) = n / 2 ^ 32 == 0xffff

-- Unmap
unfoldable pub unmap : Addr → Addr
unmap (v4 n) = v4 n
unmap (v6 n z) = if n / 2 ^ 32 == 0xffff then v4 (n % 2 ^ 32) else v6 n z

-- WithZone
unfoldable pub with_zone : Text → Addr → Addr
with_zone zone (v4 n) = v4 n
with_zone zone (v6 n z) = v6 n zone

pub record Prefix : Type 0 where
  pub addr : Addr
  pub bits : ℕ

mask : ℕ → ℕ → ℕ → ℕ
mask width bits n = n / 2 ^ (width - bits) * 2 ^ (width - bits)

masked_addr : ℕ → Addr → Addr
masked_addr bits (v4 n) = v4 (mask 32 bits n)
masked_addr bits (v6 n z) = v6 (mask 128 bits n) []

-- Prefix.Masked
unfoldable pub masked : Prefix → Prefix
unfolding mask masked_addr
masked p = record { addr = masked_addr p.bits p.addr; bits = p.bits }

within : ℕ → Addr → Addr → Bool
within bits (v4 m) (v4 n) = m / 2 ^ (32 - bits) == n / 2 ^ (32 - bits)
within bits (v6 m y) (v6 n z) = is_empty z && m / 2 ^ (128 - bits) == n / 2 ^ (128 - bits)
within bits _ _ = false

-- Prefix.Contains
unfoldable pub prefix_contains : Prefix → Addr → Bool
unfolding within
prefix_contains p ip = within p.bits p.addr ip

-- netip.ParseAddr and netip.ParsePrefix, of which none is the error, and the texts of an address and
-- of a prefix.
pub record NetParser : Type 0 where
  pub parse_addr : Text → Option Addr
  pub parse_prefix : Text → Option Prefix
  pub addr_text : Addr → Text
  pub prefix_text : Prefix → Text
