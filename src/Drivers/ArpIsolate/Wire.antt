-- ===== src/Drivers/ArpIsolate/Wire.antt =====
-- arpisolate.go: what is read from the neighbour table, resolveFromProcARP, and the frame of sendARP.
use net_soldier.Prelude.{
  ℕ, ◌/◌, ◌%◌, Option, none, some, List, [], ◌∷◌, ◌++◌, Text, codes, take, drop, is_space, split,
  str_eq, join, map, decimal, if◌then◌else◌,
}
use net_soldier.Net.Mac.{parse_mac, mac_text}

abbrev pub Bytes : Type 0
Bytes = List ℕ

-- IP.String, for four bytes
unfoldable pub ip_text : Bytes → Text
ip_text ip = join b'.' (map decimal ip)

-- strings.Fields
unfoldable pub push_field : Text → List Text → List Text
push_field [] fs = fs
push_field (c ∷ s) fs = (c ∷ s) ∷ fs

unfoldable pub fields_loop : Text → Text → List Text
unfolding push_field
fields_loop field [] = push_field field []
fields_loop field (c ∷ s) =
    let next = fields_loop (if is_space c then [] else field ++ c ∷ []) s in
    if is_space c then push_field field next else next

unfoldable pub fields : Text → List Text
unfolding fields_loop
fields s = fields_loop [] s

-- The answer of the row that was found.
unfoldable pub complete : Option Bytes → Option Bytes
complete none = none
complete (some mac) = if str_eq (mac_text mac) (codes "00:00:00:00:00:00") then none else some mac

-- The hardware address of a row, if the row is of the target.
unfoldable pub row_of : Text → List Text → Option Text
row_of target (ip ∷ kind ∷ flags ∷ mac ∷ rest) = if str_eq ip target then some mac else none
row_of target _ = none

unfoldable pub find_row : Text → List Text → Option Bytes
unfolding complete row_of
find_row target [] = none
find_row target (line ∷ lines) =
    let rest = find_row target lines in
    elim (row_of target (fields line)) [ none ↦ rest | some mac ↦ complete (parse_mac mac) ]

-- resolveFromProcARP, of the address with a text
unfoldable pub resolve_from_proc_arp : Option Text → Text → Option Bytes
unfolding find_row
resolve_from_proc_arp none target = none
resolve_from_proc_arp (some table) target = find_row target (drop 1 (split b'\n' table))

-- binary.BigEndian.PutUint16, and copy into n zero bytes.
unfoldable pub uint16 : ℕ → Bytes
uint16 v = v / 256 % 256 ∷ v % 256 ∷ []

unfoldable pub zeros : ℕ → Bytes
zeros ℕ.zero = []
zeros (ℕ.suc n) = 0 ∷ zeros n

unfoldable pub copied : ℕ → Bytes → Bytes
unfolding zeros
copied n bs = take n (bs ++ zeros n)

-- The frame of sendARP.
unfoldable pub frame : Bytes → Bytes → Bytes → Bytes → Bytes → Bytes
unfolding uint16 copied
frame hardware dst_mac sender_ip sender_mac target_ip =
    copied 6 dst_mac
    ++ copied 6 hardware
    ++ uint16 0x0806
    ++ uint16 1
    ++ uint16 0x0800
    ++ (6 ∷ 4 ∷ [])
    ++ uint16 2
    ++ copied 6 sender_mac
    ++ copied 4 sender_ip
    ++ copied 6 dst_mac
    ++ copied 4 target_ip
