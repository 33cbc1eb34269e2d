-- ===== src/Networker.antt =====
-- The networker: networker/networker.go, networker/vpn.go and networker/allowlist_lan.go. This file has its
-- state, the calls that it makes of the parts below it, and what those parts answer.
pub mod Rules
pub mod Network
pub mod Mesh
pub mod Tunnel
pub mod Reconnect
pub mod Operations
use nordvpn_linux.Prelude.{
  ℕ, ℤ, Bool, true, false, not, ◌&&◌, List, [], ◌∷◌, String, Option, none, some, if◌then◌else◌,
}
use nordvpn_linux.Prelude.Action.{Action, succeed, fail, reading, catching}
use nordvpn_linux.Config.{Technology, Protocol}
use nordvpn_linux.Config.Allowlist.{Allowlist}
use nordvpn_linux.Firewall.{Interface}
use nordvpn_linux.Firewall.OrderedRules.{FirewallError}
use nordvpn_linux.Firewall.Service.{Agent, Firewall}

-- Errors that some code tells apart; wrapping keeps what an error is.
pub data Error : Type 0 where
  firewall : FirewallError → Error
  nil_vpn tunnel_closed mesh_not_active already_started mesh_already_set : Error
  rule_exists rule_missing bad_subnet other : Error

-- vpn.ServerData; an empty `ip` is the zero address
pub record ServerData : Type 0 where
  pub ip : String
  pub hostname : String
  pub name : String
  pub country : String
  pub city : String
  pub protocol : Protocol
  pub virtual_location : Bool

-- mesh.Machine and mesh.MachinePeer, as far as the networker reads them
pub record Machine : Type 0 where
  pub public_key : String
  pub hostname : String
  pub nickname : String
  pub address : String

pub record Peer : Type 0 where
  pub public_key : String
  pub hostname : String
  pub nickname : String
  pub address : String
  pub do_i_allow_inbound : Bool
  pub do_i_allow_routing : Bool
  pub do_i_allow_local_network : Bool
  pub do_i_allow_fileshare : Bool

pub record MachineMap : Type 0 where
  pub machine : Machine
  pub peers : List Peer

-- dns.Host
pub record Host : Type 0 where
  pub ip : String
  pub fqdn : String
  pub domain_names : List String

-- The calls of the VPN, the meshnet library, the routers, the name server settings, the IPv6 blocker and
-- the exit node.
pub data Call : Type 0 where
  vpn_start : ServerData → Call
  vpn_stop vpn_network_changed : Call
  -- is6, local traffic, LAN discovery, subnets
  setup_routing_rules : Bool → Bool → Bool → List String → Call
  cleanup_routing enable_policy disable_policy : Call
  add_default_route flush_router enable_router disable_router : Call
  flush_allowlist_router enable_allowlist_router disable_allowlist_router : Call
  add_mesh_route flush_peer_router enable_peer_router disable_peer_router : Call
  enable_ports : List ℤ → String → Call
  disable_ports : Call
  set_dns : List String → Call
  unset_dns block_ipv6 unblock_ipv6 : Call
  set_hosts : List Host → Call
  unset_hosts : Call
  enable_exit_node disable_exit_node : Call
  -- LAN available, kill switch
  reset_peers : List Peer → Bool → Bool → Call
  reset_exit_firewall : Bool → Bool → Call
  set_exit_allowlist : Allowlist → Bool → Call
  mesh_enable : String → String → Call
  mesh_refresh : MachineMap → Call
  mesh_disable mesh_network_changed : Call

-- `Combined`; `calls` has the latest call first
pub record Combined : Type 0 where
  pub fw : Firewall
  pub vpnet : Option Technology
  pub next_vpn : Option Technology
  pub is_network_set : Bool
  pub is_kill_switch_set : Bool
  pub is_v6_traffic_allowed : Bool
  pub is_vpn_set : Bool
  pub is_meshnet_set : Bool
  pub rules : List String
  pub cfg : MachineMap
  pub allowlist : Allowlist
  pub last_server : ServerData
  pub last_creds : String
  pub last_nameservers : List String
  pub last_private_key : String
  pub ipv6_enabled : Bool
  pub fwmark : ℕ
  pub lan_discovery : Bool
  pub enable_local_traffic : Bool
  pub interfaces : List String
  pub calls : List Call

-- What the parts below answer, by the calls made before; and net/netip.
pub record World : Type 0 where
  pub agent : Agent
  pub answers : List Call → Call → Option Error
  -- the devices of the firewall's rules, unless listing them fails
  pub devices : List Call → Option (List Interface)
  -- the names of the interfaces with a default route, but the tunnel's
  pub default_interfaces : List Call → List String
  -- the current VPN has a tunnel, and it is active
  pub has_tunnel : List Call → Bool
  pub vpn_is_active : List Call → Bool
  pub mesh_is_active : List Call → Bool
  -- the first address of the tunnel's device, and of the mesh device
  pub vpn_ip : List Call → Option String
  pub mesh_ip : List Call → Option String
  -- the meshnet library is the current VPN too
  pub mesh_is_vpn : List Call → Bool
  pub is_prefix : String → Bool
  pub is_valid_address : String → Bool
  pub is6 : String → Bool
  pub in_mesh_subnet : String → Bool
  -- the prefix of one address
  pub single : String → String
  -- the default name servers
  pub nameservers : List String

abbrev pub Method : Type 0
Method = Action Error Combined

module _ (w : World) where
  unfoldable pub call : Call → Method
  call c n = (w.answers n.calls c, record n { calls = c ∷ n.calls })

  -- netw.devices()
  with_devices : Option (List Interface) → (List Interface → Method) → Method
  with_devices none k = fail other
  with_devices (some ifaces) k = k ifaces

  unfoldable pub devices : (List Interface → Method) → Method
  unfolding with_devices
  devices k = reading λ n. with_devices (w.devices n.calls) k

  -- `isConnectedToVPN`
  unfoldable pub is_connected_to_vpn : Combined → Bool
  is_connected_to_vpn n = elim n.vpnet [
    | none ↦ false
    | some _ ↦ w.has_tunnel n.calls && w.vpn_is_active n.calls
  ]

abbrev firewall_error : Option FirewallError → Option Error
firewall_error none = none
firewall_error (some e) = some (firewall e)

unfoldable pub on_firewall : Action FirewallError Firewall → Method
on_firewall m n = let (r, fw) = m n.fw in (firewall_error r, record n { fw = fw })

abbrev pub is_rule_not_found : Error → Bool
is_rule_not_found (firewall FirewallError.rule_not_found) = true
is_rule_not_found _ = false

abbrev pub is_rule_already_exists : Error → Bool
is_rule_already_exists (firewall FirewallError.rule_already_exists) = true
is_rule_already_exists _ = false

-- the errors of the kind that the test names are dropped
unfoldable pub tolerating : (Error → Bool) → Method → Method
tolerating test m = catching (λ e. if test e then succeed else fail e) m
