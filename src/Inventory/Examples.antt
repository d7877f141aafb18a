-- ===== src/Inventory/Examples.antt =====
-- Tests and examples of the inventory.
use net_soldier.Prelude.{
  ℕ, ◌≡◌, refl, true, false, Option, none, some, [], ◌∷◌, ◌++◌, Text, codes, str_eq, is_empty,
  exists, if◌then◌else◌,
}
use net_soldier.Inventory.Store.{
  Device, Table, Observation, is_randomized_mac, get_device, upsert_full,
}
use net_soldier.Inventory.Store.Repointing.{IsFlagged, upsert_full-spares}

abbrev hash : Text → Text → Text
hash vendor_class hostname = vendor_class ++ codes "|" ++ hostname

-- A phone that comes with a new address.
abbrev phone : Observation
phone = record {
  mac = codes "06:11:22:33:44:55";
  ip = codes "10.0.0.9";
  hostname = codes "phone";
  fingerprint = [];
  vendor_class = codes "android-dhcp-14";
  vendor = [];
  os = [];
  device_type = [];
}

-- A router with an address of its own.
abbrev router : Device
router = record {
  mac = codes "00:11:22:33:44:55";
  ip = codes "10.0.0.1";
  hostname = codes "router";
  fingerprint = [];
  vendor_class = [];
  vendor = [];
  os = [];
  device_type = [];
  stable_id = [];
  labels = some [];
  randomized_mac = false;
  first_seen = 3;
  last_seen = 3;
}

-- The phone under its old address, and under the new one as ARP saw it first.
abbrev old_phone : Device
old_phone = record router {
  mac = codes "02:11:22:33:44:55";
  vendor_class = codes "android-dhcp-14";
  stable_id = codes "android-dhcp-14|phone";
  randomized_mac = true;
}

abbrev seen_phone : Device
seen_phone = record router { mac = phone.mac; randomized_mac = true }

abbrev new_phone : Device
new_phone = record old_phone {
  mac = phone.mac;
  ip = phone.ip;
  hostname = phone.hostname;
  last_seen = 7;
}

rotates : upsert_full hash 7 phone (router ∷ old_phone ∷ []) ≡ some (router ∷ new_phone ∷ [])
unfolding upsert_full is_randomized_mac net_soldier.Prelude.split net_soldier.Prelude.trim_space
    net_soldier.Net.Mac.hex_byte is_empty str_eq net_soldier.Inventory.Store.update_where
rotates = refl

-- The rotation fails once the new address has a row.
collides : upsert_full hash 7 phone (old_phone ∷ seen_phone ∷ []) ≡ none
unfolding upsert_full is_randomized_mac net_soldier.Prelude.split net_soldier.Prelude.trim_space
    net_soldier.Net.Mac.hex_byte is_empty str_eq net_soldier.Inventory.Store.update_where
collides = refl

flagged : IsFlagged (router ∷ old_phone ∷ [])
unfolding IsFlagged is_randomized_mac net_soldier.Prelude.split net_soldier.Prelude.trim_space
    net_soldier.Net.Mac.hex_byte
flagged = (refl, (refl, tt))

upsert_full-spares_example :
    IsFlagged (router ∷ new_phone ∷ [])
    × ((mac : Text)
        → is_randomized_mac mac ≡ false
        → str_eq phone.mac mac ≡ false
        → get_device mac (router ∷ new_phone ∷ []) ≡ get_device mac (router ∷ old_phone ∷ []))
upsert_full-spares_example =
    upsert_full-spares hash 7 phone (router ∷ old_phone ∷ []) (router ∷ new_phone ∷ []) flagged
      rotates
