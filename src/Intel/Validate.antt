-- ===== src/Intel/Validate.antt =====
-- apps/threat-intel-sync/internal/ioc/validate.go: what is let into the store. The parsers of the
-- net package are parameters.
pub mod Breadth
use net_soldier.Prelude.{
  ℕ, Bool, true, false, not, ◌&&◌, ◌||◌, Option, none, some, List, [], ◌∷◌, Text, codes, ℤ, pos,
  ltb_ℤ, ltb, ◌==◌, is_empty, trim_space, trim_suffix, trim_prefix, to_lower, has_byte, has_any,
  split, exists, str_eq, length, if◌then◌else◌,
}
use net_soldier.Net.Ip.{IpParser, IpNet, Ip}
use net_soldier.Net.Domain.{check_domain}
use net_soldier.Intel.Indicator.{Indicator, type_domain, type_ip, type_url, fingerprint_types}

-- publicSuffixes
abbrev pub public_suffixes : List Text
public_suffixes =
    codes "com"
    ∷ codes "net"
    ∷ codes "org"
    ∷ codes "edu"
    ∷ codes "gov"
    ∷ codes "mil"
    ∷ codes "int"
    ∷ codes "info"
    ∷ codes "biz"
    ∷ codes "name"
    ∷ codes "pro"
    ∷ codes "app"
    ∷ codes "dev"
    ∷ codes "io"
    ∷ codes "co"
    ∷ codes "me"
    ∷ codes "tv"
    ∷ codes "cc"
    ∷ codes "xyz"
    ∷ codes "top"
    ∷ codes "online"
    ∷ codes "site"
    ∷ codes "shop"
    ∷ codes "cloud"
    ∷ codes "live"
    ∷ codes "icu"
    ∷ codes "vip"
    ∷ codes "pl"
    ∷ codes "de"
    ∷ codes "uk"
    ∷ codes "fr"
    ∷ codes "nl"
    ∷ codes "it"
    ∷ codes "es"
    ∷ codes "cz"
    ∷ codes "sk"
    ∷ codes "ru"
    ∷ codes "ua"
    ∷ codes "eu"
    ∷ codes "us"
    ∷ codes "ca"
    ∷ codes "cn"
    ∷ codes "jp"
    ∷ codes "br"
    ∷ codes "in"
    ∷ codes "au"
    ∷ codes "ch"
    ∷ codes "at"
    ∷ codes "be"
    ∷ codes "se"
    ∷ codes "no"
    ∷ codes "dk"
    ∷ codes "fi"
    ∷ codes "ie"
    ∷ codes "pt"
    ∷ codes "co.uk"
    ∷ codes "org.uk"
    ∷ codes "gov.uk"
    ∷ codes "ac.uk"
    ∷ codes "me.uk"
    ∷ codes "com.au"
    ∷ codes "net.au"
    ∷ codes "org.au"
    ∷ codes "com.br"
    ∷ codes "com.cn"
    ∷ codes "co.jp"
    ∷ codes "com.pl"
    ∷ codes "net.pl"
    ∷ codes "org.pl"
    ∷ codes "gov.pl"
    ∷ codes "co.nz"
    ∷ codes "co.za"
    ∷ codes "com.mx"
    ∷ codes "com.tr"
    ∷ codes "co.in"
    ∷ codes "duckdns.org"
    ∷ codes "no-ip.org"
    ∷ codes "ddns.net"
    ∷ codes "dyndns.org"
    ∷ codes "hopto.org"
    ∷ codes "zapto.org"
    ∷ codes "ngrok.io"
    ∷ codes "herokuapp.com"
    ∷ codes "azurewebsites.net"
    ∷ codes "cloudfront.net"
    ∷ codes "amazonaws.com"
    ∷ codes "firebaseapp.com"
    ∷ codes "web.app"
    ∷ codes "pages.dev"
    ∷ codes "workers.dev"
    ∷ codes "github.io"
    ∷ codes "netlify.app"
    ∷ codes "vercel.app"
    ∷ codes "glitch.me"
    ∷ []

-- validateDomain; none is its error.
unfoldable pub validate_domain : Text → Option Text
validate_domain value =
    check_domain public_suffixes
      (trim_prefix (codes "*.") (trim_suffix (codes ".") (to_lower value)))

check_net : Option IpNet → Option Text
check_net none = none
check_net (some n) = if n.ones == 0 && ltb 0 n.bits then none else some n.text

check_host : Option Ip → Option Text
check_host none = none
check_host (some ip) = if ip.loopback || ip.unspecified then none else some ip.text

with_value : Indicator → Option Text → Option Indicator
with_value i none = none
with_value i (some v) = some (record i { value = v })

-- The test of the confidence, which comes last.
in_range : Option Indicator → Option Indicator
in_range none = none
in_range (some i) =
    if ltb_ℤ i.confidence (pos 0) || ltb_ℤ (pos 100) i.confidence then none else some i

module _ (net : IpParser) where
  host_of : Text → Text
  host_of v = elim (net.split_host_port v) [ none ↦ v | some h ↦ h ]

  -- validateIP; none is its error.
  unfoldable pub validate_ip : Text → Option Text
  unfolding check_net check_host host_of
  validate_ip value =
      let v = trim_space value in
      if has_byte b'/' v
      then check_net (net.parse_cidr v)
      else check_host (net.parse_ip (host_of v))

  -- The switch on the type.
  normalize : Indicator → Option Indicator
  normalize i =
      if str_eq i.kind type_domain
      then with_value i (validate_domain i.value)
      else if str_eq i.kind type_ip
      then with_value i (validate_ip i.value)
      else if str_eq i.kind type_url
      then if ltb 2048 (length i.value) then none else some i
      else if exists (λ t. str_eq t i.kind) fingerprint_types
      then if has_any (codes " \t\r\n") (to_lower i.value)
        then none
        else some (record i { value = to_lower i.value })
      else none

  -- Validate; none is its error.
  unfoldable pub validate : Indicator → Option Indicator
  unfolding in_range normalize with_value
  validate i =
      let j = record i { value = trim_space i.value } in
      if is_empty j.value then none else in_range (normalize j)
