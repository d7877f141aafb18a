-- ===== src/Policy/Allowlist/Growth.antt =====
-- Adding an entry never takes the protection of another away.
use net_soldier.Prelude.{
  ◌≡◌, inl, inr, ◌⊎◌, Bool, true, Option, none, some, List, [], ◌∷◌, Text, arith, is_empty,
  trim_space, has_byte, exists, exists-append, Bool-cases, Option-cases,
}
use net_soldier.Net.Addr.{Addr, Prefix, NetParser, addr_eq, masked, prefix_contains}
use net_soldier.Policy.Allowlist.{
  Allowlist, normalize_mac, add_mac, add_ip, canonical_addr, contains, has_mac, has_ip, has_addr,
  add_key, add_addr, add_single, add_net,
}

-- Each set of the second allowlist holds what that of the first holds.
record Grows (a a' : Allowlist) : Type 0 where
  macs : (p : Text → Bool) → exists p a.macs ≡ true → exists p a'.macs ≡ true
  addrs : (p : Addr → Bool) → exists p a.addrs ≡ true → exists p a'.addrs ≡ true
  nets : (p : Prefix → Bool) → exists p a.nets ≡ true → exists p a'.nets ≡ true

has_mac_mono :
    (mac : Text) (a a' : Allowlist) → Grows a a' → has_mac mac a ≡ true → has_mac mac a' ≡ true
unfolding has_mac
has_mac_mono mac a a' g = elim (Option-cases (normalize_mac mac)) [
  | inl e ↦ rw (e, has_mac) (λ h. h)
  | inr (norm, e) ↦ rw (e, has_mac) (λ h. g.macs _ h)
]

has_addr_mono :
    (x : Addr) (a a' : Allowlist) → Grows a a' → has_addr x a ≡ true → has_addr x a' ≡ true
unfolding has_addr
has_addr_mono x a a' g h =
    ground (arith, g.addrs (λ b. addr_eq b x), g.nets (λ p. prefix_contains p x))

exists-add_key :
    (p : Text → Bool) (k : Text) (ks : List Text)
    → exists p ks ≡ true
    → exists p (add_key k ks) ≡ true
unfolding add_key
exists-add_key p k ks h = ground (arith, exists-append p ks (k ∷ []))

exists-add_addr :
    (p : Addr → Bool) (a : Addr) (bs : List Addr)
    → exists p bs ≡ true
    → exists p (add_addr a bs) ≡ true
unfolding add_addr
exists-add_addr p a bs h = ground (arith, exists-append p bs (a ∷ []))

add_mac-Grows : (mac : Text) (a : Allowlist) {a' : Allowlist} → add_mac mac a ≡ some a' → Grows a a'
unfolding add_mac
add_mac-Grows mac a {a'} = elim (Option-cases (normalize_mac mac)) [
  | inl e ↦ rw (e, add_mac) (λ h. cc)
  | inr (norm, e) ↦
      rw (e, add_mac)
        (λ h. record {
          macs = λ p q. ground (arith, exists-add_key p norm a.macs q);
          addrs = λ p q. ground arith;
          nets = λ p q. ground arith;
        })
]

module _ (net : NetParser) where
  has_ip_mono :
      (ip : Text) (a a' : Allowlist) → Grows a a' → has_ip net ip a ≡ true → has_ip net ip a' ≡ true
  unfolding has_ip
  has_ip_mono ip a a' g = elim (Option-cases (net.parse_addr (trim_space ip))) [
    | inl e ↦ rw (e, has_ip) (λ h. h)
    | inr (x, e) ↦ rw (e, has_ip) (λ h. has_addr_mono (canonical_addr x) a a' g h)
  ]

  contains_mono :
      (mac ip : Text) (a a' : Allowlist)
      → Grows a a'
      → contains net mac ip a ≡ true
      → contains net mac ip a' ≡ true
  unfolding contains
  contains_mono mac ip a a' g h = ground (arith, has_mac_mono mac a a' g, has_ip_mono ip a a' g)

  add_single-Grows :
      (o : Option Addr) (a : Allowlist) {a' : Allowlist} → add_single net o a ≡ some a' → Grows a a'
  unfolding add_single
  add_single-Grows none a h = cc
  add_single-Grows (some x) a h = record {
    macs = λ p q. ground arith;
    addrs = λ p q. ground (arith, exists-add_addr p (canonical_addr x) a.addrs q);
    nets = λ p q. ground arith;
  }

  add_net-Grows :
      (o : Option Prefix) (a : Allowlist) {a' : Allowlist} → add_net net o a ≡ some a' → Grows a a'
  unfolding add_net
  add_net-Grows none a h = cc
  add_net-Grows (some x) a h = record {
    macs = λ p q. ground arith;
    addrs = λ p q. ground arith;
    nets = λ p q. ground (arith, exists-append p a.nets (masked x ∷ []));
  }

  add_ip-Grows :
      (entry : Text) (a : Allowlist) {a' : Allowlist} → add_ip net entry a ≡ some a' → Grows a a'
  unfolding add_ip
  add_ip-Grows entry a {a'} = elim (Bool-cases (is_empty (trim_space entry))) [
    | inl e ↦ rw e (λ h. cc)
    | inr e ↦ rw e (elim (Bool-cases (has_byte b'/' (trim_space entry))) [
      | inl c ↦ rw c (λ h. add_net-Grows (net.parse_prefix (trim_space entry)) a h)
      | inr c ↦ rw c (λ h. add_single-Grows (net.parse_addr (trim_space entry)) a h)
    ])
  ]

  -- A device that is allowlisted stays so when a hardware address, an address or a network is
  -- added.
  pub contains_after_add :
      (entry mac ip : Text) (a a' : Allowlist)
      → (add_mac entry a ≡ some a') ⊎ (add_ip net entry a ≡ some a')
      → contains net mac ip a ≡ true
      → contains net mac ip a' ≡ true
  contains_after_add entry mac ip a a' (inl e) = contains_mono mac ip a a' (add_mac-Grows entry a e)
  contains_after_add entry mac ip a a' (inr e) = contains_mono mac ip a a' (add_ip-Grows entry a e)
