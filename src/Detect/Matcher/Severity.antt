-- ===== src/Detect/Matcher/Severity.antt =====
-- apps/detection-engine/internal/iocmatch/severity.go, and the indicator of matcher.go.
use net_soldier.Prelude.{
  Bool, List, [], ◌∷◌, ◌++◌, Text, codes, ℤ, pos, leb_ℤ, to_lower, contains_text, join, exists,
  str_eq, if◌then◌else◌, ◌||◌,
}

-- IoC
pub record Ioc : Type 0 where
  pub value : Text
  pub kind : Text
  pub source : Text
  pub threat : Text
  pub confidence : ℤ
  pub tags : List Text
  pub severity : Text
  pub mitre_id : Text
  pub mitre_name : Text

-- DeriveSeverity
unfoldable pub derive_severity : ℤ → Text
derive_severity confidence =
    if leb_ℤ (pos 90) confidence
    then codes "critical"
    else if leb_ℤ (pos 70) confidence
    then codes "high"
    else if leb_ℤ (pos 50) confidence
    then codes "medium"
    else codes "low"

-- containsAny
contains_any : Text → List Text → Bool
contains_any s = exists (λ t. contains_text t s)

-- The second switch of DeriveMitre, on the type.
mitre_of_kind : Text → Text × Text
mitre_of_kind kind =
    if str_eq kind (codes "domain")
    then (codes "T1071.004", codes "Application Layer Protocol: DNS")
    else if str_eq kind (codes "ip")
    then (codes "T1095", codes "Non-Application Layer Protocol")
    else if str_eq kind (codes "url")
    then (codes "T1071.001", codes "Application Layer Protocol: Web Protocols")
    else if str_eq kind (codes "ja3") || str_eq kind (codes "tlsfp")
    then (codes "T1071.001", codes "Application Layer Protocol: Web Protocols")
    else (codes "T1071", codes "Application Layer Protocol")

-- DeriveMitre
unfoldable pub derive_mitre : Text → Text → List Text → Text × Text
unfolding contains_any mitre_of_kind
derive_mitre kind threat tags =
    let lower = join b' ' tags ++ codes " " ++ to_lower threat in
    if contains_any lower (codes "c2" ∷ codes "botnet" ∷ codes "command" ∷ codes "control" ∷ [])
    then (codes "T1071", codes "Application Layer Protocol")
    else if contains_any lower (codes "malware_download" ∷ codes "payload" ∷ codes "dropper" ∷ [])
    then (codes "T1105", codes "Ingress Tool Transfer")
    else if contains_any lower (codes "phishing" ∷ codes "credential" ∷ [])
    then (codes "T1566", codes "Phishing")
    else if contains_any lower (codes "exfil" ∷ codes "stealer" ∷ [])
    then (codes "T1041", codes "Exfiltration Over C2 Channel")
    else if contains_any lower (codes "dga" ∷ codes "dynamic" ∷ [])
    then (codes "T1568", codes "Dynamic Resolution")
    else if contains_any lower (codes "miner" ∷ codes "crypto" ∷ [])
    then (codes "T1496", codes "Resource Hijacking")
    else if contains_any lower (codes "scan" ∷ codes "recon" ∷ [])
    then (codes "T1595", codes "Active Scanning")
    else mitre_of_kind kind
