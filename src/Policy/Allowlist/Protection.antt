-- ===== src/Policy/Allowlist/Protection.antt =====
-- What an entry of the allowlist protects, and what it does not.
use net_soldier.Prelude.{
  ℕ, sym, ◌∙◌, ◌≡◌, refl, ap, inl, inr, Bool, true, false, none, some, List, [], ◌∷◌, Text, arith,
  is_empty, trim_space, has_byte, exists, exists-append, str_eq, str_eq_refl, Bool-cases,
}
use net_soldier.Net.Mac.{mac_text}
use net_soldier.Net.Mac.Spelling.{AreBytes}
use net_soldier.Net.Addr.{
  Addr, v4, v6, Prefix, NetParser, addr_eq, is_4in6, unmap, with_zone, masked, prefix_contains,
}
use net_soldier.Policy.Allowlist.{
  Allowlist, normalize_mac, add_mac, add_ip, canonical_addr, contains, has_mac, has_ip, has_addr,
  add_key, add_addr, add_single,
}
use net_soldier.Policy.Allowlist.Macs.{Style, spell, normalize-spell}

addr_eq_refl : (a : Addr) → addr_eq a a ≡ true
unfolding addr_eq
addr_eq_refl (v4 n) = ground arith
addr_eq_refl (v6 n z) = ground (arith, str_eq_refl z)

has_key-add_key : (k : Text) (ks : List Text) → exists (λ j. str_eq j k) (add_key k ks) ≡ true
unfolding add_key
has_key-add_key k ks = ground (arith, exists-append (λ j. str_eq j k) ks (k ∷ []), str_eq_refl k)

exists-add_key :
    (p : Text → Bool) (k : Text) (ks : List Text)
    → exists p ks ≡ true
    → exists p (add_key k ks) ≡ true
unfolding add_key
exists-add_key p k ks h = ground (arith, exists-append p ks (k ∷ []))

has_addr-add_addr : (a : Addr) (bs : List Addr) → exists (λ b. addr_eq b a) (add_addr a bs) ≡ true
unfolding add_addr
has_addr-add_addr a bs =
    ground (arith, exists-append (λ b. addr_eq b a) bs (a ∷ []), addr_eq_refl a)

exists-add_addr :
    (p : Addr → Bool) (a : Addr) (bs : List Addr)
    → exists p bs ≡ true
    → exists p (add_addr a bs) ≡ true
unfolding add_addr
exists-add_addr p a bs h = ground (arith, exists-append p bs (a ∷ []))

is_empty→eq : (s : Text) → is_empty s ≡ true → s ≡ []
unfolding is_empty
is_empty→eq [] h = refl
is_empty→eq (c ∷ s) h = cc

normalize_empty : normalize_mac [] ≡ none
unfolding normalize_mac trim_space is_empty
normalize_empty = refl

-- A text that normalizes is not empty.
nonempty_of_normalize : (mac norm : Text) → normalize_mac mac ≡ some norm → is_empty mac ≡ false
nonempty_of_normalize mac norm e = elim (Bool-cases (is_empty mac)) [
  | inr full ↦ full
  | inl void ↦ cc (normalize_empty, ap normalize_mac (is_empty→eq mac void))
]

has_mac_of_normalize :
    (mac norm : Text) (a : Allowlist)
    → normalize_mac mac ≡ some norm
    → has_mac mac a ≡ exists (λ k. str_eq k norm) a.macs
unfolding has_mac
has_mac_of_normalize mac norm a e = rw (e, has_mac)

pub listed_of_contains :
    (net : NetParser) (mac norm : Text) (a : Allowlist)
    → normalize_mac mac ≡ some norm
    → contains net mac [] a ≡ true
    → exists (λ k. str_eq k norm) a.macs ≡ true
unfolding contains is_empty
listed_of_contains net mac norm a e h =
    let listed : has_mac mac a ≡ true = ground arith in
    sym (has_mac_of_normalize mac norm a e) ∙ listed

has_mac_of_none : (mac : Text) (a : Allowlist) → normalize_mac mac ≡ none → has_mac mac a ≡ false
unfolding has_mac
has_mac_of_none mac a e = rw (e, has_mac)

mapped_outside :
    (p : Prefix) (y : Addr)
    → is_4in6 p.addr ≡ true
    → is_4in6 y ≡ true
    → prefix_contains (masked p) (canonical_addr y) ≡ false
unfolding prefix_contains masked is_4in6 canonical_addr unmap with_zone
mapped_outside p y hp hy = ground arith

has_mapped :
    (p : Prefix) (y : Addr)
    → is_4in6 p.addr ≡ true
    → is_4in6 y ≡ true
    → has_addr (canonical_addr y) (record { macs = []; addrs = []; nets = masked p ∷ [] }) ≡ false
unfolding has_addr
has_mapped p y hp hy = rw (mapped_outside p y hp hy)

module _ (net : NetParser) where
  contains_of_mac :
      (mac ip norm : Text) (a : Allowlist)
      → normalize_mac mac ≡ some norm
      → exists (λ k. str_eq k norm) a.macs ≡ true
      → contains net mac ip a ≡ true
  unfolding contains
  contains_of_mac mac ip norm a e h =
      ground (arith, nonempty_of_normalize mac norm e, has_mac_of_normalize mac norm a e)

  -- Once six bytes were added in any spelling, a device that shows them in any spelling is
  -- allowlisted, whatever its IP.
  pub contains-add_mac :
      (b0 b1 b2 b3 b4 b5 : ℕ) (style style' : Style) (upper upper' : Bool) (ip : Text)
      (a : Allowlist)
      → let six = b0 ∷ b1 ∷ b2 ∷ b3 ∷ b4 ∷ b5 ∷ [] in
        AreBytes six
        → (a' : Allowlist) × (add_mac (spell style upper six) a ≡ some a')
          × (contains net (spell style' upper' six) ip a' ≡ true)
  unfolding add_mac
  contains-add_mac b0 b1 b2 b3 b4 b5 style style' upper upper' ip a h =
      let norm = mac_text (b0 ∷ b1 ∷ b2 ∷ b3 ∷ b4 ∷ b5 ∷ []) in
      let a' = record a { macs = add_key norm a.macs } in
      (
        a',
        rw (normalize-spell b0 b1 b2 b3 b4 b5 h style upper, add_mac),
        contains_of_mac _ ip norm a' (normalize-spell b0 b1 b2 b3 b4 b5 h style' upper')
            (has_key-add_key norm a.macs),
      )

  has_ip_of_parse :
      (ip : Text) (addr : Addr) (a : Allowlist)
      → net.parse_addr (trim_space ip) ≡ some addr
      → has_ip net ip a ≡ has_addr (canonical_addr addr) a
  unfolding has_ip
  has_ip_of_parse ip addr a e = rw (e, has_ip)

  contains_of_addr :
      (mac ip : Text) (addr : Addr) (a : Allowlist)
      → is_empty ip ≡ false
      → net.parse_addr (trim_space ip) ≡ some addr
      → has_addr (canonical_addr addr) a ≡ true
      → contains net mac ip a ≡ true
  unfolding contains
  contains_of_addr mac ip addr a full e h = ground (arith, has_ip_of_parse ip addr a e)

  -- An address that was added protects every device that shows an address of the same canonical
  -- form: the address itself, or its IPv4-mapped form.
  pub contains-add_ip :
      (entry mac ip : Text) (x y : Addr) (a : Allowlist)
      → is_empty (trim_space entry) ≡ false
      → has_byte b'/' (trim_space entry) ≡ false
      → net.parse_addr (trim_space entry) ≡ some x
      → is_empty ip ≡ false
      → net.parse_addr (trim_space ip) ≡ some y
      → canonical_addr y ≡ canonical_addr x
      → (a' : Allowlist) × (add_ip net entry a ≡ some a') × (contains net mac ip a' ≡ true)
  unfolding add_ip add_single has_addr
  contains-add_ip entry mac ip x y a full single px full' py same =
      let a' = record a { addrs = add_addr (canonical_addr x) a.addrs } in
      let listed : has_addr (canonical_addr y) a' ≡ true =
        rw same (ground (arith, has_addr-add_addr (canonical_addr x) a.addrs)) in
      (a', rw (full, single) (rw (px, add_single)), contains_of_addr mac ip y a' full' py listed)

  -- A device whose address lies in an IPv4-mapped network is not protected by that network: the
  -- lookup unmaps the address, and the network stays mapped.
  pub mapped_net_gap :
      (p : Prefix) (y : Addr) (mac ip : Text)
      → is_4in6 p.addr ≡ true
      → is_4in6 y ≡ true
      → net.parse_addr (trim_space ip) ≡ some y
      → normalize_mac mac ≡ none
      → contains net mac ip (record { macs = []; addrs = []; nets = masked p ∷ [] }) ≡ false
  unfolding contains
  mapped_net_gap p y mac ip hp hy py unknown =
      let a : Allowlist = record { macs = []; addrs = []; nets = masked p ∷ [] } in
      ground (arith, has_ip_of_parse ip y a py, has_mac_of_none mac a unknown, has_mapped p y hp hy)
