-- ===== src/Intel/Export/ZeekRows.antt =====
-- What a reader of lines of fields finds in the file for Zeek: a line ends in a newline, one that starts
-- with '#' is a comment, a tab separates fields, and `unescape` undoes the escapes of a field.
use net_soldier.Prelude.{
  ◌≡◌, Bool, true, false, not, ◌&&◌, List, [], ◌∷◌, ◌++◌, map, keep, Text, codes, has_byte, ◌==◌,
  split, if◌then◌else◌,
}
use net_soldier.Intel.Indicator.{Indicator}

read_lines : Text → Text → List Text
read_lines line [] = []
read_lines line (c ∷ s) =
    let rest = read_lines (if c == b'\n' then [] else line ++ c ∷ []) s in
    if c == b'\n' then line ∷ rest else rest

-- A line that starts with '#'.
is_comment : Text → Bool
is_comment [] = false
is_comment (c ∷ t) = c == b'#'

-- The rows of a file that are no comments, as lists of fields.
unfoldable pub read_rows : (Text → Text) → Text → List (List Text)
unfolding read_lines is_comment
read_rows unescape file =
    map (λ l. map unescape (split b'\t' l)) (keep (λ l. not (is_comment l)) (read_lines [] file))

-- A text without a tab, a newline and a backslash.
unfoldable pub is_plain : Text → Bool
is_plain t = not (has_byte b'\t' t) && not (has_byte b'\n' t) && not (has_byte b'\\' t)

-- An indicator whose texts are plain, and whose value does not start with '#'.
unfoldable pub IsPlain : Indicator → Type 0
unfolding is_comment
IsPlain i =
    (is_plain i.value ≡ true)
    × (is_comment i.value ≡ false)
    × (is_plain i.source ≡ true)
    × (is_plain i.threat ≡ true)
    × (is_plain i.reference ≡ true)

abbrev literals : List Text
literals =
    codes "Intel::DOMAIN"
    ∷ codes "Intel::SUBNET"
    ∷ codes "Intel::ADDR"
    ∷ codes "Intel::URL"
    ∷ codes "Intel::FILE_HASH"
    ∷ codes "Intel::CERT_HASH"
    ∷ codes "Intel::JA3"
    ∷ codes "Intel::TLSFP"
    ∷ []
    ∷ codes "netsoldier"
    ∷ codes "-"
    ∷ []
