-- ===== src/Net/Ip.antt =====
-- net.IP and net.IPNet, by what the program asks of them. Their parsers are parameters.
use net_soldier.Prelude.{ℕ, Bool, Option, Text}

pub record IpNet : Type 0 where
  pub ones : ℕ
  pub bits : ℕ
  pub text : Text

pub record Ip : Type 0 where
  pub loopback : Bool
  pub unspecified : Bool
  pub link_local : Bool
  pub multicast : Bool
  pub text : Text

-- net.ParseCIDR, net.SplitHostPort (the host), net.ParseIP, of which none is the error, and
-- IPNet.Contains.
pub record IpParser : Type 0 where
  pub parse_cidr : Text → Option IpNet
  pub split_host_port : Text → Option Text
  pub parse_ip : Text → Option Ip
  pub net_contains : IpNet → Ip → Bool
