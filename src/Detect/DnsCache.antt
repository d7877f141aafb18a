-- ===== src/Detect/DnsCache.antt =====
-- apps/detection-engine/internal/correlator/dnscache.go: the domain that an address was last resolved
-- from. Times are nanoseconds; the time of expiry may wrap, so it is an integer.
use net_soldier.Prelude.{
  ℕ, ◌*◌, ◌≡◌, refl, none, some, [], Text, codes, ℤ, pos, negsuc, leb, ltb_ℤ, signed64, add_to,
  str_eq, Assoc, lookup, insert, length, if◌then◌else◌,
}

pub record DnsEntry : Type 0 where
  pub domain : Text
  pub expires : ℤ

abbrev pub DnsCache : Type 0
DnsCache = Assoc DnsEntry

-- The number of seconds that an entry lives.
lifetime : ℤ → ℕ
lifetime (pos n) = if leb n 0 then 300 else n
lifetime (negsuc n) = 300

-- Set
unfoldable pub set : ℕ → Text → Text → ℤ → DnsCache → DnsCache
unfolding lifetime
set now ip domain ttl_seconds c =
    insert ip
      (record {
        domain = domain;
        expires = add_to now (signed64 (lifetime ttl_seconds * 1000000000));
      })
      c

-- Get
unfoldable pub get : ℕ → Text → DnsCache → Text
get now ip c = elim (lookup ip c) [
  | none ↦ []
  | some e ↦ if ltb_ℤ e.expires (pos now) then [] else e.domain
]

-- Len
unfoldable pub len : DnsCache → ℕ
len c = length c

dns_tests :
    (get 8 (codes "203.0.113.9") (set 5 (codes "203.0.113.9") (codes "a.example") (pos 60) [])
      ≡ codes "a.example")
    × (get 300000000006
          (codes "203.0.113.9")
          (set 5 (codes "203.0.113.9") (codes "a.example") (pos 0) [])
        ≡ [])
unfolding get set lookup insert str_eq add_to
dns_tests = (refl, refl)
