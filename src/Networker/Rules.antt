-- ===== src/Networker/Rules.antt =====
-- The firewall rules of the networker, those of mesh peers among them, and their names.
pub mod Peers
pub mod Blocking
pub mod Stuck
use Prim.Native.String
use Prim.Native.String.{String}
use nordvpn_linux.Prelude.{
  string_eq, pos, Bool, true, false, not, ◌&&◌, ◌||◌, ◌==◌, List, [], ◌∷◌, ◌++◌, Option, none, some,
  contains, if◌then◌else◌,
}
use nordvpn_linux.Prelude.Action.{succeed, fail, update, reading, ◌>>◌, when}
use nordvpn_linux.Firewall.{
  Rule, Interface, Direction, inbound, outbound, two_way, forward, source_and_destination,
  destination, related, established,
}
use nordvpn_linux.Firewall.Service
use nordvpn_linux.Networker.{
  World, Combined, Method, Error, rule_exists, rule_missing, devices, on_firewall,
}

-- a rule with the zero value in each field
abbrev pub no_rule : Rule
no_rule = record {
  name = "";
  interfaces = [];
  remote_networks = [];
  local_networks = [];
  ports = [];
  ports_direction = source_and_destination;
  protocols = [];
  direction = inbound;
  connection_states = record { src_addr = ""; states = [] };
  marks = [];
  allow = false;
  ipv6_only = false;
  icmpv6_types = [];
  hop_limit = 0;
  source_ports = [];
  destination_ports = [];
  comment = "";
}

abbrev pub rule_name : String → String → String → String
rule_name public_key kind address = String.◌++◌ public_key (String.◌++◌ kind address)

abbrev pub allow_incoming_rule : String
allow_incoming_rule = "-allow-rule-"

abbrev pub block_lan_rule : String
block_lan_rule = "-block-lan-rule-"

abbrev pub allow_fileshare_rule : String
allow_fileshare_rule = "-allow-fileshare-rule-"

abbrev pub deny_private_dns : String
deny_private_dns = "deny-private-dns"

abbrev pub local_networks : List String
local_networks = "10.0.0.0/8" ∷ "172.16.0.0/12" ∷ "192.168.0.0/16" ∷ "169.254.0.0/16" ∷ []

abbrev mesh_subnet : String
mesh_subnet = "100.64.0.0/10"

abbrev link_local : List String
link_local = "fe80::/10" ∷ []

abbrev pub drop_rule : String → Direction → List Interface → Rule
drop_rule name direction ifaces = record no_rule {
  name = name;
  direction = direction;
  interfaces = ifaces;
  allow = false;
}

abbrev ipv6_rule : String → List Interface → Rule
ipv6_rule name ifaces = record no_rule {
  name = name;
  interfaces = ifaces;
  direction = two_way;
  allow = true;
  ipv6_only = true;
}

abbrev ipv6_rules : List Interface → List Rule
ipv6_rules ifaces =
    record (ipv6_rule "vpn_allowlist_icmp6_errors" ifaces) {
      protocols = "ipv6-icmp" ∷ [];
      icmpv6_types = pos 1 ∷ pos 2 ∷ pos 3 ∷ pos 4 ∷ pos 128 ∷ pos 129 ∷ [];
    }
    ∷ record (ipv6_rule "vpn_allowlist_icmp6_address" ifaces) {
      protocols = "ipv6-icmp" ∷ [];
      icmpv6_types =
          pos 133 ∷ pos 134 ∷ pos 135 ∷ pos 136 ∷ pos 141 ∷ pos 142 ∷ pos 148 ∷ pos 149 ∷ [];
      hop_limit = 255;
    }
    ∷ record (ipv6_rule "vpn_allowlist_icmp6_multicast" ifaces) {
      local_networks = link_local;
      protocols = "ipv6-icmp" ∷ [];
      icmpv6_types = pos 130 ∷ pos 131 ∷ pos 132 ∷ pos 143 ∷ pos 151 ∷ pos 152 ∷ pos 153 ∷ [];
    }
    ∷ record (ipv6_rule "vpn_allowlist_dhcp6_in" ifaces) {
      local_networks = link_local;
      protocols = "udp" ∷ [];
      destination_ports = pos 546 ∷ [];
      direction = inbound;
    }
    ∷ record (ipv6_rule "vpn_allowlist_dhcp6_out" ifaces) {
      local_networks = link_local;
      protocols = "udp" ∷ [];
      destination_ports = pos 547 ∷ [];
      direction = outbound;
    }
    ∷ []

-- slices.Delete at slices.Index, where the name stands in the list
unfoldable pub delete_name : String → List String → List String
delete_name name [] = []
delete_name name (r ∷ rs) = let rest = r ∷ delete_name name rs in if r == name then rs else rest

abbrev append_rule : String → Combined → Combined
append_rule name n = record n { rules = n.rules ++ name ∷ [] }

module _ (w : World) where
  unfoldable pub add_rules : List Rule → Method
  add_rules rules = on_firewall (Service.add w.agent rules)

  unfoldable pub delete_rules : List String → Method
  delete_rules names = on_firewall (Service.delete w.agent names)

  unfoldable pub block_traffic : Method
  unfolding add_rules
  block_traffic = devices w λ ifaces. do
    add_rules (drop_rule "drop-fw" forward ifaces ∷ [])
    add_rules (drop_rule "drop" two_way ifaces ∷ [])

  unfoldable pub unblock_traffic : Method
  unfolding delete_rules
  unblock_traffic = do delete_rules ("drop-fw" ∷ []); delete_rules ("drop" ∷ [])

  unfoldable pub allow_ipv6_traffic : Method
  unfolding add_rules
  allow_ipv6_traffic = devices w λ ifaces. do
    add_rules (ipv6_rules ifaces)
    update λ n. record n { is_v6_traffic_allowed = true }

  unfoldable pub stop_allowed_ipv6_traffic : Method
  unfolding delete_rules
  stop_allowed_ipv6_traffic = do
    delete_rules (
        "vpn_allowlist_icmp6_errors" ∷ "vpn_allowlist_icmp6_address"
        ∷ "vpn_allowlist_icmp6_multicast" ∷ "vpn_allowlist_dhcp6_in" ∷ "vpn_allowlist_dhcp6_out"
        ∷ [])
    update λ n. record n { is_v6_traffic_allowed = false }

  -- `removeRule`
  unfoldable pub remove_rule : String → Method
  unfolding delete_rules delete_name
  remove_rule name = reading λ n.
      if not (contains n.rules name)
      then fail rule_missing
      else do delete_rules (name ∷ []); update λ n. record n { rules = delete_name name n.rules }

  unfoldable pub undeny_dns : Method
  unfolding delete_rules delete_name
  undeny_dns = reading λ n. if not (contains n.rules deny_private_dns) then succeed else do
    delete_rules (deny_private_dns ∷ [])
    update λ n. record n { rules = delete_name deny_private_dns n.rules }

  unfoldable pub deny_dns : Method
  unfolding add_rules
  deny_dns = reading λ n. if contains n.rules deny_private_dns then succeed else do
    add_rules (
        record no_rule {
          name = deny_private_dns;
          direction = outbound;
          protocols = "udp" ∷ "tcp" ∷ [];
          ports = pos 53 ∷ [];
          ports_direction = destination;
          remote_networks = local_networks;
          allow = false;
        }
        ∷ [])
    update (append_rule deny_private_dns)

  abbrev incoming_rule : String → String → Rule
  incoming_rule public_key address = record no_rule {
    name = rule_name public_key allow_incoming_rule address;
    direction = inbound;
    remote_networks = w.single address ∷ [];
    allow = true;
  }

  abbrev lan_rule : String → String → Rule
  lan_rule public_key address = record no_rule {
    name = rule_name public_key block_lan_rule address;
    direction = inbound;
    local_networks = local_networks;
    remote_networks = w.single address ∷ [];
    allow = false;
  }

  -- The name of the rule that blocks the LAN is remembered before the rules are added.
  unfoldable pub allow_incoming : String → String → Bool → Method
  unfolding add_rules
  allow_incoming public_key address lan_allowed = reading λ n.
      let name = rule_name public_key allow_incoming_rule address in
      let lan_name = rule_name public_key block_lan_rule address in
      let allowed = incoming_rule public_key address ∷ [] in
      let both = incoming_rule public_key address ∷ lan_rule public_key address ∷ [] in
      if contains n.rules name then fail rule_exists else do
        when (not lan_allowed) (update (append_rule lan_name))
        add_rules (if lan_allowed then allowed else both)
        update (append_rule name)

  unfoldable pub block_incoming : String → String → Method
  unfolding remove_rule
  block_incoming public_key address = do
    reading λ n.
        when (contains n.rules (rule_name public_key block_lan_rule address))
          (remove_rule (rule_name public_key block_lan_rule address))
    remove_rule (rule_name public_key allow_incoming_rule address)

  unfoldable pub allow_fileshare : String → String → Method
  unfolding add_rules
  allow_fileshare public_key address = reading λ n.
      let name = rule_name public_key allow_fileshare_rule address in
      if contains n.rules name then fail rule_exists else do
        add_rules (
            record no_rule {
              name = name;
              direction = inbound;
              protocols = "tcp" ∷ [];
              ports = pos 49111 ∷ [];
              ports_direction = destination;
              remote_networks = w.single address ∷ [];
              allow = true;
            }
            ∷ [])
        update (append_rule name)

  unfoldable pub block_fileshare : String → String → Method
  unfolding remove_rule
  block_fileshare public_key address =
      remove_rule (rule_name public_key allow_fileshare_rule address)

  unfoldable pub default_mesh_unblock : Method
  unfolding delete_rules
  default_mesh_unblock = do reading λ n. delete_rules n.rules; update λ n. record n { rules = [] }

  unfoldable pub default_mesh_block : String → Method
  unfolding add_rules
  default_mesh_block ip = do
    add_rules (
        record no_rule {
          name = "default-mesh-block";
          direction = inbound;
          remote_networks = mesh_subnet ∷ [];
          allow = false;
        }
        ∷ record no_rule {
          name = "default-mesh-allow-established";
          direction = inbound;
          remote_networks = mesh_subnet ∷ [];
          connection_states = record { src_addr = ip; states = related ∷ established ∷ [] };
          allow = true;
        }
        ∷ [])
    update (append_rule "default-mesh-block")
    update (append_rule "default-mesh-allow-established")
