-- ===== src/Detect/Matcher/Validate.antt =====
-- apps/detection-engine/internal/iocmatch/validate.go: which domains the matcher takes.
use net_soldier.Prelude.{
  Option, List, [], ◌∷◌, Text, codes, trim_space, trim_suffix, trim_prefix, to_lower,
}
use net_soldier.Net.Domain.{check_domain}

-- publicSuffixes
abbrev pub public_suffixes : List Text
public_suffixes =
    codes "com"
    ∷ codes "net"
    ∷ codes "org"
    ∷ codes "edu"
    ∷ codes "gov"
    ∷ codes "mil"
    ∷ codes "int"
    ∷ codes "info"
    ∷ codes "biz"
    ∷ codes "name"
    ∷ codes "pro"
    ∷ codes "app"
    ∷ codes "dev"
    ∷ codes "io"
    ∷ codes "co"
    ∷ codes "me"
    ∷ codes "tv"
    ∷ codes "cc"
    ∷ codes "xyz"
    ∷ codes "top"
    ∷ codes "online"
    ∷ codes "site"
    ∷ codes "shop"
    ∷ codes "cloud"
    ∷ codes "live"
    ∷ codes "icu"
    ∷ codes "vip"
    ∷ codes "pl"
    ∷ codes "de"
    ∷ codes "uk"
    ∷ codes "fr"
    ∷ codes "nl"
    ∷ codes "it"
    ∷ codes "es"
    ∷ codes "cz"
    ∷ codes "sk"
    ∷ codes "ru"
    ∷ codes "ua"
    ∷ codes "eu"
    ∷ codes "us"
    ∷ codes "ca"
    ∷ codes "cn"
    ∷ codes "jp"
    ∷ codes "br"
    ∷ codes "in"
    ∷ codes "au"
    ∷ codes "ch"
    ∷ codes "at"
    ∷ codes "be"
    ∷ codes "se"
    ∷ codes "no"
    ∷ codes "dk"
    ∷ codes "fi"
    ∷ codes "ie"
    ∷ codes "pt"
    ∷ codes "co.uk"
    ∷ codes "org.uk"
    ∷ codes "gov.uk"
    ∷ codes "ac.uk"
    ∷ codes "me.uk"
    ∷ codes "com.au"
    ∷ codes "net.au"
    ∷ codes "org.au"
    ∷ codes "com.br"
    ∷ codes "com.cn"
    ∷ codes "co.jp"
    ∷ codes "com.pl"
    ∷ codes "net.pl"
    ∷ codes "org.pl"
    ∷ codes "gov.pl"
    ∷ codes "co.nz"
    ∷ codes "co.za"
    ∷ codes "com.mx"
    ∷ codes "com.tr"
    ∷ codes "co.in"
    ∷ codes "duckdns.org"
    ∷ codes "no-ip.org"
    ∷ codes "ddns.net"
    ∷ codes "dyndns.org"
    ∷ codes "hopto.org"
    ∷ codes "zapto.org"
    ∷ codes "serveo.net"
    ∷ codes "ngrok.io"
    ∷ codes "herokuapp.com"
    ∷ codes "azurewebsites.net"
    ∷ codes "cloudfront.net"
    ∷ codes "amazonaws.com"
    ∷ codes "blob.core.windows.net"
    ∷ codes "firebaseapp.com"
    ∷ codes "web.app"
    ∷ codes "pages.dev"
    ∷ codes "workers.dev"
    ∷ codes "github.io"
    ∷ codes "netlify.app"
    ∷ codes "vercel.app"
    ∷ codes "glitch.me"
    ∷ codes "repl.co"
    ∷ []

-- ValidateDomainIndicator; none is its error.
unfoldable pub validate_domain_indicator : Text → Option Text
validate_domain_indicator value =
    check_domain public_suffixes
      (trim_prefix (codes "*.") (trim_suffix (codes ".") (to_lower (trim_space value))))
