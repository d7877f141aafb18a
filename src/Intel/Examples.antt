-- ===== src/Intel/Examples.antt =====
-- Tests and examples of the indicators.
use mathlib.Core.List.{Memᴰ}
use net_soldier.Prelude.{
  ◌+◌, ◌≡◌, refl, Bool, true, false, Option, none, some, List, [], ◌∷◌, Text, codes, pos, lookup,
  length, IsUnique,
}
use net_soldier.Intel.Indicator.{Indicator, key}
use net_soldier.Net.Ip.{IpParser}
use net_soldier.Intel.Validate.{validate, validate_domain}
use net_soldier.Intel.Indicators.{Items, upsert_all}
use net_soldier.Intel.Export.{write_zeek_intel, zeek_fields, exported}
use net_soldier.Intel.Export.ZeekRows.{read_rows}
use net_soldier.Intel.Indicators.Upserts.{IsTrusted, Holds, upsert_all-IsTrusted, upsert_all_keeps}

-- A parser that knows no address.
abbrev no_addresses : IpParser
no_addresses = record {
  parse_cidr = λ t. none;
  split_host_port = λ t. none;
  parse_ip = λ t. none;
  net_contains = λ n ip. false;
}

abbrev raw : Indicator
raw = record {
  kind = codes "domain";
  value = codes " Evil.example.";
  source = codes "feed";
  threat = codes "c2";
  confidence = pos 80;
  first_seen = some 3;
  last_seen = some 9;
  tags = [];
  reference = [];
}

abbrev cleaned : Indicator
cleaned = record raw { value = codes "evil.example" }

abbrev too_broad : Indicator
too_broad = record raw { value = codes "com" }

abbrev feed : List Indicator
feed = too_broad ∷ raw ∷ []

validates : validate_domain (codes "Evil.example.") ≡ some (codes "evil.example")
unfolding validate_domain net_soldier.Prelude.is_empty net_soldier.Prelude.trim_prefix
    net_soldier.Prelude.trim_suffix net_soldier.Prelude.to_lower net_soldier.Prelude.split
    net_soldier.Net.Domain.is_malformed net_soldier.Net.Domain.is_suffix net_soldier.Prelude.str_eq
    net_soldier.Net.Domain.check_domain
validates = refl

-- Only one wildcard is taken off, so a doubled one leaves an indicator that covers a whole suffix.
doubled_wildcard : validate_domain (codes "*.*.com") ≡ some (codes "*.com")
unfolding validate_domain net_soldier.Prelude.is_empty net_soldier.Prelude.trim_prefix
    net_soldier.Prelude.trim_suffix net_soldier.Prelude.to_lower net_soldier.Prelude.split
    net_soldier.Net.Domain.is_malformed net_soldier.Net.Domain.is_suffix net_soldier.Prelude.str_eq
    net_soldier.Net.Domain.check_domain
doubled_wildcard = refl

empty-IsTrusted : IsTrusted []
unfolding lookup
empty-IsTrusted = record { unique = tt; keyed = λ k i at. cc; admissible = λ k i at. cc }

upsert_all-IsTrusted_example :
    IsTrusted (upsert_all no_addresses feed []).items
    × ((upsert_all no_addresses feed []).accepted + (upsert_all no_addresses feed []).rejected
        ≡ length feed)
upsert_all-IsTrusted_example = upsert_all-IsTrusted no_addresses feed [] empty-IsTrusted

accepts_raw : validate no_addresses raw ≡ some cleaned
unfolding validate net_soldier.Prelude.is_empty net_soldier.Prelude.trim_space
    net_soldier.Prelude.str_eq validate_domain net_soldier.Prelude.trim_prefix
    net_soldier.Prelude.trim_suffix net_soldier.Prelude.to_lower net_soldier.Prelude.split
    net_soldier.Net.Domain.is_malformed net_soldier.Net.Domain.is_suffix
    net_soldier.Net.Domain.check_domain
accepts_raw = refl

upsert_all_keeps_example : Holds (key cleaned) (pos 80) (upsert_all no_addresses feed []).items
upsert_all_keeps_example =
    upsert_all_keeps no_addresses feed [] raw cleaned (Memᴰ.tail (Memᴰ.head refl)) accepts_raw

abbrev two_items : Items
two_items = (codes "a", raw) ∷ (codes "b", record raw { last_seen = some 20 }) ∷ []

two_keys : IsUnique two_items
unfolding lookup net_soldier.Prelude.str_eq
two_keys = (refl, (refl, tt))

-- A line break in a threat's name makes one more row.
injected :
    length (
      read_rows
        (λ t. t)
        (write_zeek_intel (record raw { threat = codes "a\n1.1.1.1\tIntel::ADDR\tb\tc\td" } ∷ [])))
    ≡ 2
unfolding read_rows write_zeek_intel net_soldier.Intel.Export.print_lines exported
    net_soldier.Prelude.is_empty net_soldier.Intel.Export.map_zeek_type net_soldier.Prelude.str_eq
    zeek_fields
injected = refl
