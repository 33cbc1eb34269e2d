-- ===== src/Daemon/Subnets.antt =====
-- What the daemon asks of Go's address parsers.
use nordvpn_linux.Prelude.{Bool, Option, String}

-- the tests of a parsed prefix's address
pub record Prefix : Type 0 where
  pub is_private : Bool
  pub is_link_local_unicast : Bool

-- netip.ParsePrefix, net.ParseCIDR and net.ParseIP
pub record AddressParser : Type 0 where
  pub parse_prefix : String → Option Prefix
  pub is_cidr : String → Bool
  pub is_ip : String → Bool
