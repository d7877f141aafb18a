-- ===== src/Intel/Indicator.antt =====
-- apps/threat-intel-sync/internal/ioc/indicator.go: an indicator, its key and the merge of two. A
-- zero time is none.
use net_soldier.Prelude.{
  ℕ, contains_text, Bool, true, false, not, ◌&&◌, ◌||◌, Option, none, some, List, [], ◌∷◌, ◌++◌,
  Text, codes, ℤ, ltb_ℤ, ltb, is_empty, is_some, to_lower, keep, exists, str_eq, if◌then◌else◌,
}

-- The type constants, of which `Type` holds one once an indicator is validated.
abbrev pub type_domain : Text
type_domain = codes "domain"

abbrev pub type_ip : Text
type_ip = codes "ip"

abbrev pub type_url : Text
type_url = codes "url"

abbrev pub fingerprint_types : List Text
fingerprint_types =
    codes "md5"
    ∷ codes "sha256"
    ∷ codes "ja3"
    ∷ codes "tlsfp"
    ∷ codes "cert-sha1"
    ∷ codes "cert-sha256"
    ∷ []

pub record Indicator : Type 0 where
  pub kind : Text
  pub value : Text
  pub source : Text
  pub threat : Text
  pub confidence : ℤ
  pub first_seen : Option ℕ
  pub last_seen : Option ℕ
  pub tags : List Text
  pub reference : Text

-- Key
unfoldable pub key : Indicator → Text
key i = i.kind ++ b':' ∷ to_lower i.value

-- Before, with the zero time before any other
before : Option ℕ → Option ℕ → Bool
before none none = false
before none (some n) = true
before (some m) none = false
before (some m) (some n) = ltb m n

-- mergeTags: `seen` holds the tags of the first list only.
merge_tags : List Text → List Text → List Text
merge_tags a b = a ++ keep (λ t. not (exists (λ u. str_eq u t) a)) b

-- Merge
unfoldable pub merge : Indicator → Indicator → Indicator
unfolding before merge_tags
merge i other = record i {
  confidence = if ltb_ℤ i.confidence other.confidence then other.confidence else i.confidence;
  first_seen =
      if is_some other.first_seen
        && (not (is_some i.first_seen) || before other.first_seen i.first_seen)
      then other.first_seen
      else i.first_seen;
  last_seen = if before i.last_seen other.last_seen then other.last_seen else i.last_seen;
  threat = if is_empty i.threat && not (is_empty other.threat) then other.threat else i.threat;
  reference =
      if is_empty i.reference && not (is_empty other.reference)
      then other.reference
      else i.reference;
  source =
      if not (contains_text other.source i.source)
      then i.source ++ codes "," ++ other.source
      else i.source;
  tags = merge_tags i.tags other.tags;
}
