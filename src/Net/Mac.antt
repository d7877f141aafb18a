-- ===== src/Net/Mac.antt =====
-- net.ParseMAC and net.HardwareAddr.String. Two hexadecimal digits a byte, the bytes separated by
-- colons or hyphens, or in pairs by dots; 6, 8 or 20 bytes.
pub mod Spelling
use net_soldier.Prelude.{
  ℕ, ◌+◌, ◌-◌, ◌*◌, ◌/◌, ◌%◌, Bool, false, ◌&&◌, ◌||◌, Option, none, some, List, [], ◌∷◌, Text, leb,
  ltb, ◌==◌, length, if◌then◌else◌,
}

-- xtoi, for one digit
unfoldable pub hex_value : ℕ → Option ℕ
hex_value c =
    if leb b'0' c && leb c b'9'
    then some (c - b'0')
    else if leb b'a' c && leb c b'f'
    then some (c - b'a' + 10)
    else if leb b'A' c && leb c b'F'
    then some (c - b'A' + 10)
    else none

hex_byte_of : Option ℕ → Option ℕ → Option ℕ
hex_byte_of (some h) (some l) = some (h * 16 + l)
hex_byte_of _ _ = none

-- xtoi2, for the two digits of a byte
unfoldable pub hex_byte : ℕ → ℕ → Option ℕ
unfolding hex_value hex_byte_of
hex_byte h l = hex_byte_of (hex_value h) (hex_value l)

unfoldable pub cons? : Option ℕ → Option (List ℕ) → Option (List ℕ)
cons? (some b) (some bs) = some (b ∷ bs)
cons? _ _ = none

-- Bytes separated by one separator.
unfoldable pub colon_form : ℕ → Text → Option (List ℕ)
unfolding hex_byte cons?
colon_form sep (h ∷ l ∷ []) = cons? (hex_byte h l) (some [])
colon_form sep (h ∷ l ∷ c ∷ s) =
    let rest = cons? (hex_byte h l) (colon_form sep s) in if c == sep then rest else none
colon_form sep _ = none

-- Pairs of bytes separated by dots.
unfoldable pub dotted_form : Text → Option (List ℕ)
unfolding hex_byte cons?
dotted_form (h ∷ l ∷ h' ∷ l' ∷ []) = cons? (hex_byte h l) (cons? (hex_byte h' l') (some []))
dotted_form (h ∷ l ∷ h' ∷ l' ∷ c ∷ s) =
    let rest = cons? (hex_byte h l) (cons? (hex_byte h' l') (dotted_form s)) in
    if c == b'.' then rest else none
dotted_form _ = none

sized : Option (List ℕ) → Option (List ℕ)
sized none = none
sized (some hw) = if length hw == 6 || length hw == 8 || length hw == 20 then some hw else none

unfoldable pub parse_mac : Text → Option (List ℕ)
unfolding colon_form dotted_form sized
parse_mac (a ∷ b ∷ c ∷ d ∷ e ∷ s) =
    let text = a ∷ b ∷ c ∷ d ∷ e ∷ s in
    if c == b':' || c == b'-'
    then sized (colon_form c text)
    else if e == b'.'
    then sized (dotted_form text)
    else none
parse_mac _ = none

-- A digit in lower case, or in upper case.
unfoldable pub digit : Bool → ℕ → ℕ
digit upper n = if ltb n 10 then b'0' + n else (if upper then b'A' else b'a') + (n - 10)

-- HardwareAddr.String
unfoldable pub mac_text : List ℕ → Text
unfolding digit
mac_text [] = []
mac_text (b ∷ []) = digit false (b / 16) ∷ digit false (b % 16) ∷ []
mac_text (b ∷ c ∷ bs) = digit false (b / 16) ∷ digit false (b % 16) ∷ b':' ∷ mac_text (c ∷ bs)
