-- ===== src/Drivers/ArpIsolate/Gateway.antt =====
-- The hardware address of the gateway, which is cached.
use net_soldier.Prelude.{
  ℕ, ◌-◌, ◌<◌, ◌≡◌, refl, arith, ◌&&◌, Option, none, some, ltb, length, Bool-cases, ◌⊎◌, inl, inr,
}
use net_soldier.Drivers.ArpIsolate.{
  Bytes, Kernel, ArpDriver, gateway_mac_ttl, gateway_hardware_addr, resolved, has_address,
  resolve_from_proc_arp, ip_text,
}

module _ {W : Type 0} (kernel : Kernel W) where
  -- What the neighbour table says now.
  unfoldable pub table_says : ArpDriver W → Option Bytes
  table_says d = resolve_from_proc_arp (kernel.read_arp d.outside) (ip_text d.gateway_ip)

  -- Where an address may come from.
  unfoldable pub IsCurrent : ℕ → ArpDriver W → Bytes → Type 0
  unfolding table_says
  IsCurrent now d mac =
      (table_says d ≡ some mac)
      ⊎ ((mac ≡ d.gateway_mac)
          × (length mac ≡ 6)
          × ((now - d.gateway_at < gateway_mac_ttl) ⊎ (table_says d ≡ none)))

  resolved-IsCurrent :
      (now : ℕ) (d : ArpDriver W) (mac : Bytes) (o : Option Bytes)
      → table_says d ≡ o
      → (resolved kernel now o d).0 ≡ some mac
      → IsCurrent now d mac
  unfolding resolved has_address IsCurrent
  resolved-IsCurrent now d mac (some m) t h = inl (ground arith)
  resolved-IsCurrent now d mac none t h = inr (ground arith, ground arith, inr t)

  -- The address that is used is the one in the neighbour table now, or the cached one, of six bytes,
  -- when that is younger than its lifetime or the table has none.
  pub gateway-IsCurrent :
      (now : ℕ) (d : ArpDriver W) (mac : Bytes)
      → (gateway_hardware_addr kernel now d).0 ≡ some mac
      → IsCurrent now d mac
  unfolding gateway_hardware_addr has_address IsCurrent table_says
  gateway-IsCurrent now d mac h =
      elim (Bool-cases (ltb (now - d.gateway_at) gateway_mac_ttl && has_address kernel d)) [
        | inl cached ↦ inr (ground arith, ground arith, inl (ground arith))
        | inr stale ↦ resolved-IsCurrent now d mac _ refl (ground arith)
      ]
