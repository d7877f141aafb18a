-- ===== src/Intel/Export.antt =====
-- apps/threat-intel-sync/internal/export: the indicators in the formats of AdGuard Home, Suricata, Zeek
-- and Vector. A writer that never fails is the text that it writes. The encoders of base64, JSON and CSV
-- are the standard library's: base64 is a parameter, and a JSON line or a CSV row is its fields.
pub mod ZeekRows
use net_soldier.Prelude.{
  Bool, not, ◌&&◌, ◌||◌, Option, none, some, List, [], ◌∷◌, ◌++◌, map, Text, codes, ℤ, pos, leb_ℤ,
  ltb_ℤ, is_empty, has_byte, length, decimal, format_int, keep, exists, str_eq, text_less, sort_by,
  if◌then◌else◌,
}
use net_soldier.Intel.Indicator.{Indicator, type_domain, type_ip, type_url}
use net_soldier.Intel.Indicators.{Items, by_type}

abbrev pub Line : Type 0
Line = Text

-- fmt.Fprintln of each line
unfoldable pub print_lines : List Line → Text
print_lines [] = []
print_lines (l ∷ ls) = l ++ b'\n' ∷ print_lines ls

less_value : Indicator → Indicator → Bool
less_value i j = text_less i.value j.value

-- WriteAdGuard
unfoldable pub write_adguard : List Indicator → Text
unfolding less_value
write_adguard indicators = print_lines (
    codes "! Title: netSoldier Threat Intel"
    ∷ (codes "! Entries: " ++ decimal (length indicators))
    ∷ codes "! Homepage: https://github.com/migel9090/netSoldier"
    ∷ codes "!"
    ∷ map (λ (i : Indicator). codes "||" ++ i.value ++ codes "^") (sort_by less_value indicators))

-- HandleAdGuard, its body
unfoldable pub adguard_list : Items → Text
adguard_list items = write_adguard (by_type type_domain items)

-- WriteSuricataDataset, for an encoder of base64
unfoldable pub write_suricata_dataset : (Text → Text) → Bool → List Indicator → Text
unfolding less_value
write_suricata_dataset base64 encode indicators = print_lines (
    map (λ (i : Indicator). if encode then base64 i.value else i.value)
      (sort_by less_value indicators))

-- severityFromConfidence
unfoldable pub severity_from_confidence : ℤ → Text
severity_from_confidence confidence =
    if leb_ℤ (pos 80) confidence
    then codes "high"
    else if leb_ℤ (pos 50) confidence
    then codes "medium"
    else if ltb_ℤ (pos 0) confidence
    then codes "low"
    else codes "unknown"

-- An entry of the ndjson dataset: the fields that are there.
pub record JsonEntry : Type 0 where
  pub value_key : Text
  pub value : Text
  pub source : Text
  pub severity : Text
  pub confidence : ℤ
  pub threat : Option Text
  pub tags : Option (List Text)

json_entry : Text → Indicator → JsonEntry
json_entry value_key i = record {
  value_key = value_key;
  value = i.value;
  source = i.source;
  severity = severity_from_confidence i.confidence;
  confidence = i.confidence;
  threat = if is_empty i.threat then none else some i.threat;
  tags = elim i.tags [ [] ↦ none | t ∷ ts ↦ some (t ∷ ts) ];
}

-- WriteSuricataJSONDataset
unfoldable pub suricata_json : Text → List Indicator → List JsonEntry
unfolding less_value json_entry
suricata_json value_key indicators = map (json_entry value_key) (sort_by less_value indicators)

-- suricataSeedEntries
seed_of : Text → Indicator
seed_of value = record {
  kind = [];
  value = value;
  source = codes "netsoldier-seed";
  threat = [];
  confidence = pos 0;
  first_seen = none;
  last_seen = none;
  tags = [];
  reference = [];
}

seed_entries : Text → List Indicator
unfolding seed_of
seed_entries value_key =
    if str_eq value_key (codes "domain")
    then seed_of (codes "sentinel.netsoldier.invalid") ∷ []
    else if str_eq value_key (codes "ip")
    then seed_of (codes "192.0.2.254") ∷ []
    else []

-- collectForSuricata, with net.ParseIP's success as a parameter
unfoldable pub collect_for_suricata : (Text → Bool) → List Text → Items → List Indicator
collect_for_suricata is_ip [] items = []
collect_for_suricata is_ip (t ∷ types) items =
    let batch = by_type t items in
    (if str_eq t type_ip then keep (λ (i : Indicator). is_ip i.value) batch else batch)
    ++ collect_for_suricata is_ip types items

-- HandleSuricataJSONDataset, its body
unfoldable pub suricata_json_dataset : (Text → Bool) → Text → List Text → Items → List JsonEntry
unfolding seed_entries
suricata_json_dataset is_ip value_key types items =
    suricata_json value_key (collect_for_suricata is_ip types items ++ seed_entries value_key)

-- WriteCSV, its rows after the header
is_wanted : (Text → Bool) → List Text → Indicator → Bool
is_wanted is_ip types i =
    exists (λ t. str_eq t i.kind) types && not (str_eq i.kind type_ip && not (is_ip i.value))

csv_row : Indicator → List Text
csv_row i = i.value ∷ i.kind ∷ i.source ∷ i.threat ∷ format_int i.confidence ∷ []

unfoldable pub csv_rows : (Text → Bool) → List Text → List Indicator → List (List Text)
unfolding less_value is_wanted csv_row
csv_rows is_ip types indicators =
    (codes "value" ∷ codes "type" ∷ codes "source" ∷ codes "threat" ∷ codes "confidence" ∷ [])
    ∷ map csv_row (sort_by less_value (keep (is_wanted is_ip types) indicators))

-- mapZeekType
unfoldable pub map_zeek_type : Indicator → Text
map_zeek_type i =
    if str_eq i.kind type_domain
    then codes "Intel::DOMAIN"
    else if str_eq i.kind type_ip
    then (if has_byte b'/' i.value then codes "Intel::SUBNET" else codes "Intel::ADDR")
    else if str_eq i.kind type_url
    then codes "Intel::URL"
    else if str_eq i.kind (codes "md5") || str_eq i.kind (codes "sha256")
    then codes "Intel::FILE_HASH"
    else if str_eq i.kind (codes "cert-sha1") || str_eq i.kind (codes "cert-sha256")
    then codes "Intel::CERT_HASH"
    else if str_eq i.kind (codes "ja3")
    then codes "Intel::JA3"
    else if str_eq i.kind (codes "tlsfp")
    then codes "Intel::TLSFP"
    else []

or_text : Text → Text → Text
or_text t fallback = if is_empty t then fallback else t

-- The fields of a row.
unfoldable pub zeek_fields : Indicator → List Text
unfolding or_text
zeek_fields i =
    i.value
    ∷ map_zeek_type i
    ∷ or_text i.source (codes "netsoldier")
    ∷ or_text i.threat (codes "-")
    ∷ or_text i.reference (codes "-")
    ∷ []

tabbed : List Text → Text
tabbed [] = []
tabbed (f ∷ []) = f
tabbed (f ∷ g ∷ fs) = f ++ b'\t' ∷ tabbed (g ∷ fs)

-- The indicators that have a type of Zeek's.
unfoldable pub exported : List Indicator → List Indicator
exported indicators = keep (λ (i : Indicator). not (is_empty (map_zeek_type i))) indicators

zeek_header : List Text
zeek_header =
    codes "#fields"
    ∷ codes "indicator"
    ∷ codes "indicator_type"
    ∷ codes "meta.source"
    ∷ codes "meta.desc"
    ∷ codes "meta.url"
    ∷ []

-- WriteZeekIntel
unfoldable pub write_zeek_intel : List Indicator → Text
unfolding tabbed zeek_header
write_zeek_intel indicators =
    print_lines (map tabbed (zeek_header ∷ map zeek_fields (exported indicators)))
