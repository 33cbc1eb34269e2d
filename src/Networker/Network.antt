-- ===== src/Networker/Network.antt =====
-- The allowlist, the blocked network and the kill switch of the networker.
use nordvpn_linux.Prelude.{
  int_eq, string_eq, ℤ, pos, ltb_ℤ, Bool, true, false, not, ◌||◌, List, [], ◌∷◌, ◌++◌, String,
  contains, contains_func, filter, if◌then◌else◌,
}
use nordvpn_linux.Prelude.Action.{fail, update, reading, ignoring, ◌>>◌, when, for_each}
use nordvpn_linux.Config.Allowlist.{Allowlist, add_all}
use nordvpn_linux.Firewall.{Rule, Interface, two_way, forward}
use nordvpn_linux.Firewall.Service
use nordvpn_linux.Networker.{
  World, Combined, Method, bad_subnet, call, devices, on_firewall, tolerating, is_rule_not_found,
  is_rule_already_exists, setup_routing_rules, flush_allowlist_router, enable_ports, disable_ports,
  reset_exit_firewall, set_exit_allowlist,
}
use nordvpn_linux.Networker.Rules.{
  no_rule, local_networks, add_rules, delete_rules, block_traffic, unblock_traffic, deny_dns,
  undeny_dns,
}

-- `addLANPermissions`
unfoldable pub add_lan_permissions : Allowlist → Allowlist
unfolding add_all
add_lan_permissions a = record a { subnets = add_all local_networks a.subnets }

-- the ports that are no larger than math.MaxUint16
abbrev usable : List ℤ → List ℤ
usable ports = filter (λ port. not (ltb_ℤ (pos 65535) port)) ports

abbrev is_empty : List ℤ → Bool
is_empty [] = true
is_empty (p ∷ ps) = false

abbrev subnet_rules : List Interface → List String → List Rule
subnet_rules ifaces [] = []
subnet_rules ifaces (s ∷ ss) =
    record no_rule {
      name = "allowlist_subnets";
      interfaces = ifaces;
      remote_networks = s ∷ ss;
      direction = two_way;
      allow = true;
    }
    ∷ record no_rule {
      name = "allowlist_subnets_forward";
      interfaces = ifaces;
      remote_networks = s ∷ ss;
      direction = forward;
      allow = true;
    }
    ∷ []

abbrev port_rules : List Interface → String → String → List ℤ → List Rule
port_rules ifaces name protocol ports =
    if is_empty ports
    then []
    else record no_rule {
      name = name;
      interfaces = ifaces;
      protocols = protocol ∷ [];
      direction = two_way;
      ports = ports;
      allow = true;
    }
      ∷ []

-- port 53 of either protocol
unfoldable pub allows_dns : Allowlist → Bool
allows_dns a = contains a.ports.tcp (pos 53) || contains a.ports.udp (pos 53)

module _ (w : World) where
  -- policyRouter.SetupRoutingRules with the present settings
  unfoldable pub adjust_routing_rules : Bool → Method
  adjust_routing_rules is6 = reading λ n.
      call w (setup_routing_rules is6 n.enable_local_traffic n.lan_discovery n.allowlist.subnets)

  -- `setAllowlist` behind the list of devices, on the allowlist with the LANs that are permitted
  unfoldable pub set_permitted : Allowlist → List Interface → Method
  unfolding call allows_dns adjust_routing_rules
  set_permitted allowlist ifaces =
      let tcp = usable allowlist.ports.tcp in
      let udp = usable allowlist.ports.udp in
      if contains_func (λ s. not (w.is_prefix s)) allowlist.subnets then fail bad_subnet else do
        when (not (is_empty tcp)) (call w (enable_ports tcp "tcp"))
        when (not (is_empty udp)) (call w (enable_ports udp "udp"))
        add_rules w (
            subnet_rules ifaces allowlist.subnets
            ++ (port_rules ifaces "allowlist_ports_tcp" "tcp" tcp
                ++ port_rules ifaces "allowlist_ports_udp" "udp" udp))
        when (not (allows_dns allowlist)) (deny_dns w)
        update (λ n. record n { allowlist = allowlist })
        adjust_routing_rules false

  unfoldable pub set_allowlist_rules : Allowlist → Method
  unfolding add_lan_permissions
  set_allowlist_rules allowlist = reading λ n.
      devices w
        (set_permitted (if n.lan_discovery then add_lan_permissions allowlist else allowlist))

  abbrev allowlist_rules : List String
  allowlist_rules =
      "allowlist_subnets" ∷ "allowlist_subnets_forward" ∷ "allowlist_ports_tcp"
      ∷ "allowlist_ports_udp" ∷ []

  unfoldable pub unset_allowlist : Method
  unfolding call allows_dns
  unset_allowlist = do
    ignoring (call w flush_allowlist_router)
    for_each (λ rule. tolerating is_rule_not_found (delete_rules w (rule ∷ []))) allowlist_rules
    call w disable_ports
    reading λ n. when (not (allows_dns n.allowlist)) (undeny_dns w)

  unfoldable pub reset_allowlist : Method
  unfolding unset_allowlist set_allowlist_rules
  reset_allowlist = do unset_allowlist; reading λ n. set_allowlist_rules n.allowlist

  -- `SetAllowlist`
  unfoldable pub set_allowlist : Allowlist → Method
  unfolding unset_allowlist set_allowlist_rules call
  set_allowlist allowlist = do
    reading λ n. when n.is_network_set do unset_allowlist; set_allowlist_rules allowlist
    reading λ n. call w (set_exit_allowlist allowlist (n.lan_discovery || not n.is_network_set))

  abbrev pub api_rule : List Interface → Combined → Rule
  api_rule ifaces n = record no_rule {
    name = "api_allowlist";
    interfaces = ifaces;
    direction = two_way;
    marks = n.fwmark ∷ [];
    allow = true;
  }

  -- `setNetwork` up to its last statement
  unfoldable pub set_rules : Allowlist → Method
  unfolding set_allowlist_rules call
  set_rules allowlist = do
    tolerating is_rule_already_exists (block_traffic w)
    devices w λ ifaces. reading λ n. add_rules w (api_rule ifaces n ∷ [])
    set_allowlist_rules allowlist
    reading λ n. ignoring (call w (reset_exit_firewall n.lan_discovery true))

  unfoldable pub set_network : Allowlist → Method
  unfolding set_rules
  set_network allowlist = set_rules allowlist >> update (λ n. record n { is_network_set = true })

  -- `unsetNetwork` up to its last statement
  unfoldable pub unset_rules : Method
  unfolding unset_allowlist call
  unset_rules = do
    delete_rules w ("api_allowlist" ∷ [])
    tolerating is_rule_not_found (unblock_traffic w)
    unset_allowlist
    ignoring (call w (reset_exit_firewall true false))

  unfoldable pub unset_network : Method
  unfolding unset_rules
  unset_network = unset_rules >> update (λ n. record n { is_network_set = false })

  unfoldable pub unset_firewall : Method
  unfolding unset_network
  unset_firewall = reading λ n. when (not n.is_kill_switch_set) unset_network

  unfoldable pub set_kill_switch : Allowlist → Method
  unfolding set_network
  set_kill_switch allowlist = do
    reading λ n. when (not n.is_network_set) (set_network allowlist)
    update λ n. record n { is_kill_switch_set = true }

  unfoldable pub unset_kill_switch : Method
  unfolding unset_network
  unset_kill_switch = do
    reading λ n. when (not n.is_vpn_set) unset_network
    update λ n. record n { is_kill_switch_set = false }

  unfoldable pub enable_firewall : Method
  enable_firewall = on_firewall (Service.enable w.agent)

  unfoldable pub disable_firewall : Method
  disable_firewall = on_firewall (Service.disable w.agent)
