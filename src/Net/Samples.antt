-- ===== src/Net/Samples.antt =====
-- Test data: a parser that knows one address and its IPv4-mapped form.
use net_soldier.Prelude.{none, some, [], codes, str_eq, if◌then◌else◌}
use net_soldier.Net.Addr.{v4, v6, NetParser}

abbrev pub sample_net : NetParser
sample_net = record {
  parse_addr = λ t.
      if str_eq t (codes "10.0.0.5")
      then some (v4 167772165)
      else if str_eq t (codes "::ffff:10.0.0.5")
      then some (v6 281470849515525 [])
      else none;
  parse_prefix = λ t. none;
  addr_text = λ a. [];
  prefix_text = λ p. [];
}
