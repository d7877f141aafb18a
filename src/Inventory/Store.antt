-- ===== src/Inventory/Store.antt =====
-- apps/device-inventory/internal/store/sqlite.go: the table of the devices. A statement is what it does to
-- the rows, in the order of insertion; none is the error of a violated primary key, which leaves the
-- table as it was. The hash of StableID is a parameter. Times are those of the column, in seconds.
pub mod Repointing
use net_soldier.Prelude.{
  ℕ, ◌-◌, ◌/◌, ◌%◌, Bool, true, false, not, ◌&&◌, Option, none, some, List, [], ◌∷◌, ◌++◌, Text,
  ltb, ◌==◌, is_empty, length, take, keep, exists, trim_space, split, str_eq, sort_by,
  if◌then◌else◌,
}
use net_soldier.Net.Mac.{hex_byte}

-- A row; `labels` is none for the JSON null of a nil slice.
pub record Device : Type 0 where
  pub mac : Text
  pub ip : Text
  pub hostname : Text
  pub fingerprint : Text
  pub vendor_class : Text
  pub vendor : Text
  pub os : Text
  pub device_type : Text
  pub stable_id : Text
  pub labels : Option (List Text)
  pub randomized_mac : Bool
  pub first_seen : ℕ
  pub last_seen : ℕ

abbrev pub Table : Type 0
Table = List Device

-- The arguments of UpsertFull.
pub record Observation : Type 0 where
  pub mac : Text
  pub ip : Text
  pub hostname : Text
  pub fingerprint : Text
  pub vendor_class : Text
  pub vendor : Text
  pub os : Text
  pub device_type : Text

-- strings.ReplaceAll of a byte
replaced : ℕ → ℕ → Text → Text
replaced old new [] = []
replaced old new (c ∷ s) = (if c == old then new else c) ∷ replaced old new s

-- The first byte of an address whose text has a separator.
first_byte : List Text → Option ℕ
first_byte ((h ∷ l ∷ []) ∷ t ∷ ts) = hex_byte h l
first_byte _ = none

-- IsRandomizedMAC
unfoldable pub is_randomized_mac : Text → Bool
unfolding replaced first_byte
is_randomized_mac mac = elim (first_byte (split b':' (replaced b'-' b':' (trim_space mac)))) [
  | none ↦ false
  | some b ↦ b / 2 % 2 == 1
]

-- CASE WHEN new != '' THEN new ELSE old END
or_old : Text → Text → Text
or_old new old = if is_empty new then old else new

-- The columns that both statements set from what is new and not empty.
refreshed : ℕ → Observation → Device → Device
unfolding or_old
refreshed now o d = record d {
  ip = or_old o.ip d.ip;
  hostname = or_old o.hostname d.hostname;
  fingerprint = or_old o.fingerprint d.fingerprint;
  vendor_class = or_old o.vendor_class d.vendor_class;
  vendor = or_old o.vendor d.vendor;
  os = or_old o.os d.os;
  device_type = or_old o.device_type d.device_type;
  last_seen = now;
}

-- UPDATE devices SET ... WHERE ...
unfoldable pub update_where : (Device → Bool) → (Device → Device) → Table → Table
update_where p f [] = []
update_where p f (d ∷ ds) = (if p d then f d else d) ∷ update_where p f ds

-- GetDevice
unfoldable pub get_device : Text → Table → Option Device
get_device mac [] = none
get_device mac (d ∷ ds) = let rest = get_device mac ds in if str_eq d.mac mac then some d else rest

has_mac : Text → Table → Bool
has_mac mac t = exists (λ (d : Device). str_eq d.mac mac) t

-- The primary key.
keys_differ : Table → Bool
unfolding has_mac
keys_differ [] = true
keys_differ (d ∷ ds) = let rest = keys_differ ds in if has_mac d.mac ds then false else rest

-- The row of the INSERT, and what ON CONFLICT sets.
new_device : ℕ → Text → Observation → Device
new_device now sid o = record {
  mac = o.mac;
  ip = o.ip;
  hostname = o.hostname;
  fingerprint = o.fingerprint;
  vendor_class = o.vendor_class;
  vendor = o.vendor;
  os = o.os;
  device_type = o.device_type;
  stable_id = sid;
  labels = some [];
  randomized_mac = is_randomized_mac o.mac;
  first_seen = now;
  last_seen = now;
}

on_conflict : ℕ → Text → Observation → Device → Device
unfolding refreshed or_old
on_conflict now sid o d = record (refreshed now o d) {
  stable_id = or_old sid d.stable_id;
  randomized_mac = is_randomized_mac o.mac;
}

-- insertDevice
unfoldable pub insert_device : ℕ → Text → Observation → Table → Table
unfolding has_mac new_device on_conflict
insert_device now sid o t =
    if has_mac o.mac t
    then update_where (λ (d : Device). str_eq d.mac o.mac) (on_conflict now sid o) t
    else t ++ new_device now sid o ∷ []

-- The UPDATE of UpsertFull.
is_rotation_of : Text → Device → Bool
is_rotation_of sid d = str_eq d.stable_id sid && d.randomized_mac

repointed : ℕ → Observation → Device → Device
unfolding refreshed
repointed now o d = record (refreshed now o d) { mac = o.mac }

rotate : ℕ → Text → Observation → Table → Option Table
unfolding is_rotation_of repointed keys_differ
rotate now sid o t =
    let rows = update_where (is_rotation_of sid) (repointed now o) t in
    if keys_differ rows then some rows else none

-- UpsertFull, for the identifier of StableID
unfoldable pub upsert_full : (Text → Text → Text) → ℕ → Observation → Table → Option Table
unfolding rotate is_rotation_of
upsert_full stable_id now o t =
    let sid = stable_id o.vendor_class o.hostname in
    if is_randomized_mac o.mac && not (is_empty o.vendor_class)
    then if exists (is_rotation_of sid) t
      then rotate now sid o t
      else some (insert_device now sid o t)
    else some (insert_device now [] o t)

-- Prune: what is left, and how many were removed.
is_kept : ℕ → Device → Bool
is_kept cutoff d = not (
    ltb d.last_seen cutoff
    && elim d.labels [ none ↦ false | some [] ↦ true | some (l ∷ ls) ↦ false ])

unfoldable pub prune : ℕ → Table → Table × ℕ
unfolding is_kept
prune cutoff t = let left = keep (is_kept cutoff) t in (left, length t - length left)

-- SetLabels; false is the error of an unknown device.
unfoldable pub set_labels : Text → Option (List Text) → Table → Bool × Table
unfolding has_mac
set_labels mac labels t = (
  has_mac mac t,
  update_where (λ (d : Device). str_eq d.mac mac) (λ d. record d { labels = labels }) t,
)

-- EnrichByIP
unfoldable pub enrich_by_ip : ℕ → Text → Text → Table → Table
enrich_by_ip now ip hostname t =
    update_where (λ (d : Device). str_eq d.ip ip)
      (λ d. record d {
        hostname = if is_empty d.hostname && not (is_empty hostname) then hostname else d.hostname;
        last_seen = now;
      })
      t

abbrev pub max_list_rows : ℕ
max_list_rows = 5000

-- List
unfoldable pub list_devices : Table → List Device
list_devices t = take max_list_rows (sort_by (λ (d e : Device). ltb e.last_seen d.last_seen) t)

-- Count
unfoldable pub count : Table → ℕ
count t = length t
