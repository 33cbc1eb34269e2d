-- ===== src/Networker/Operations/Flags.antt =====
-- The methods that leave the flags of the kill switch, of the blocked network and of the VPN alone.
use nordvpn_linux.Prelude.{Bool, false, List, String, Option, none, some, if◌then◌else◌}
use nordvpn_linux.Prelude.Action.{
  Action, succeed, fail, reading, Keeps, Keeps-update, keeps_rules, Keeps-if, Keeps-catching,
  Keeps-succeed, Keeps-fail,
}
use nordvpn_linux.Config.Allowlist.{Allowlist}
use nordvpn_linux.Firewall.{Interface}
use nordvpn_linux.Firewall.OrderedRules.{FirewallError}
use nordvpn_linux.Firewall.Service.{Firewall}
use nordvpn_linux.Networker.Mesh.{
  allow_peer, refresh, set_mesh, un_set_mesh, turn_mesh_off, refresh_incoming, reset_routing,
  set_lan_discovery,
}
use nordvpn_linux.Networker.Tunnel.{
  deny_ipv6, permit_ipv6, use_dns, drop_dns, handle_network_changed, enable_routing,
  disable_routing,
}
use nordvpn_linux.Networker.{
  Peer, MachineMap, World, Combined, Method, Error, Call, call, devices, with_devices, on_firewall,
  tolerating,
}
use nordvpn_linux.Networker.Rules.{
  add_rules, delete_rules, block_traffic, unblock_traffic, deny_dns, undeny_dns, allow_incoming,
  block_incoming, allow_fileshare, block_fileshare, remove_rule, default_mesh_block,
  default_mesh_unblock, stop_allowed_ipv6_traffic,
}
use nordvpn_linux.Networker.Network.{
  adjust_routing_rules, set_permitted, set_allowlist_rules, unset_allowlist, reset_allowlist,
  set_allowlist, set_rules, unset_rules,
}

-- a predicate of the three flags is kept by a method that changes none of them
module _ (Q : Bool → Bool → Bool → Type 0) where
  abbrev pub Kept : Method → Type 0
  Kept m = Keeps (λ n. Q n.is_kill_switch_set n.is_network_set n.is_vpn_set) m

  pub call-Kept : (w : World) (c : Call) → Kept (call w c)
  unfolding call
  call-Kept w c = record { at = λ n h. h }

  pub on_firewall-Kept : (m : Action FirewallError Firewall) → Kept (on_firewall m)
  unfolding on_firewall
  on_firewall-Kept m = record { at = λ n h. h }

  pub devices-Kept :
      (w : World) (k : List Interface → Method)
      → ((ifaces : List Interface) → Kept (k ifaces))
      → Kept (devices w k)
  unfolding devices fail reading
  devices-Kept w k h = record { at = λ n p. listed n p (w.devices n.calls) }
    where
      listed :
          (n : Combined)
          → Q n.is_kill_switch_set n.is_network_set n.is_vpn_set
          → (o : Option (List Interface))
          → let m = (with_devices w o k n).1 in Q m.is_kill_switch_set m.is_network_set m.is_vpn_set
      listed n p none = p
      listed n p (some ifaces) = (h ifaces).at n p

  pub tolerating-Kept : (test : Error → Bool) (m : Method) → Kept m → Kept (tolerating test m)
  unfolding tolerating
  tolerating-Kept test m h =
      Keeps-catching (λ e. if test e then succeed else fail e) m
        (λ e. Keeps-if (test e) succeed (fail e) Keeps-succeed (Keeps-fail e)) h

  ruleset flag_rules =
      (keeps_rules, Keeps-update, call-Kept, on_firewall-Kept, devices-Kept, tolerating-Kept)

  pub deny_dns-Kept : (w : World) → Kept (deny_dns w)
  unfolding deny_dns add_rules
  deny_dns-Kept w = search (flag_rules) depth 12 fits 4000

  pub undeny_dns-Kept : (w : World) → Kept (undeny_dns w)
  unfolding undeny_dns delete_rules
  undeny_dns-Kept w = search (flag_rules) depth 12 fits 4000

  pub block_traffic-Kept : (w : World) → Kept (block_traffic w)
  unfolding block_traffic add_rules
  block_traffic-Kept w = search (flag_rules) depth 12 fits 4000

  pub unblock_traffic-Kept : (w : World) → Kept (unblock_traffic w)
  unfolding unblock_traffic delete_rules
  unblock_traffic-Kept w = search (flag_rules) depth 12 fits 4000

  pub stop_allowed_ipv6_traffic-Kept : (w : World) → Kept (stop_allowed_ipv6_traffic w)
  unfolding stop_allowed_ipv6_traffic delete_rules
  stop_allowed_ipv6_traffic-Kept w = search (flag_rules) depth 12 fits 4000

  pub remove_rule-Kept : (w : World) (name : String) → Kept (remove_rule w name)
  unfolding remove_rule delete_rules
  remove_rule-Kept w name = search (flag_rules) depth 12 fits 4000

  pub allow_incoming-Kept :
      (w : World) (key : String) (address : String) (lan : Bool)
      → Kept (allow_incoming w key address lan)
  unfolding allow_incoming add_rules
  allow_incoming-Kept w key address lan = search (flag_rules) depth 12 fits 4000

  pub block_incoming-Kept :
      (w : World) (key : String) (address : String) → Kept (block_incoming w key address)
  unfolding block_incoming
  block_incoming-Kept w key address = search (flag_rules, remove_rule-Kept) depth 12 fits 4000

  pub allow_fileshare-Kept :
      (w : World) (key : String) (address : String) → Kept (allow_fileshare w key address)
  unfolding allow_fileshare add_rules
  allow_fileshare-Kept w key address = search (flag_rules) depth 12 fits 4000

  pub block_fileshare-Kept :
      (w : World) (key : String) (address : String) → Kept (block_fileshare w key address)
  unfolding block_fileshare
  block_fileshare-Kept w key address = search (flag_rules, remove_rule-Kept) depth 12 fits 4000

  pub default_mesh_unblock-Kept : (w : World) → Kept (default_mesh_unblock w)
  unfolding default_mesh_unblock delete_rules
  default_mesh_unblock-Kept w = search (flag_rules) depth 12 fits 4000

  pub default_mesh_block-Kept : (w : World) (ip : String) → Kept (default_mesh_block w ip)
  unfolding default_mesh_block add_rules
  default_mesh_block-Kept w ip = search (flag_rules) depth 12 fits 4000

  pub adjust_routing_rules-Kept : (w : World) (is6 : Bool) → Kept (adjust_routing_rules w is6)
  unfolding adjust_routing_rules
  adjust_routing_rules-Kept w is6 = search (flag_rules) depth 12 fits 4000

  pub set_permitted-Kept :
      (w : World) (allowlist : Allowlist) (ifaces : List Interface)
      → Kept (set_permitted w allowlist ifaces)
  unfolding set_permitted add_rules
  set_permitted-Kept w allowlist ifaces =
      search (flag_rules, deny_dns-Kept, adjust_routing_rules-Kept) depth 12 fits 4000

  pub set_allowlist_rules-Kept :
      (w : World) (allowlist : Allowlist) → Kept (set_allowlist_rules w allowlist)
  unfolding set_allowlist_rules
  set_allowlist_rules-Kept w allowlist = search (flag_rules, set_permitted-Kept) depth 12 fits 4000

  pub unset_allowlist-Kept : (w : World) → Kept (unset_allowlist w)
  unfolding unset_allowlist delete_rules
  unset_allowlist-Kept w = search (flag_rules, undeny_dns-Kept) depth 12 fits 4000

  pub reset_allowlist-Kept : (w : World) → Kept (reset_allowlist w)
  unfolding reset_allowlist
  reset_allowlist-Kept w =
      search (flag_rules, unset_allowlist-Kept, set_allowlist_rules-Kept) depth 12 fits 4000

  pub allow_peer-Kept : (w : World) (peer : Peer) → Kept (allow_peer w peer)
  unfolding allow_peer
  allow_peer-Kept w peer =
      search (flag_rules, allow_incoming-Kept, allow_fileshare-Kept) depth 12 fits 4000

  pub refresh-Kept : (w : World) (cfg : MachineMap) → Kept (refresh w cfg)
  unfolding refresh
  refresh-Kept w cfg =
      search
        (
          flag_rules, default_mesh_unblock-Kept, default_mesh_block-Kept, allow_incoming-Kept,
          allow_peer-Kept,
        )
        depth 12 fits 4000

  -- an error of the library may show that the VPN is down
  pub set_mesh-Kept :
      (down : (k b v : Bool) → Q k b v → Q k b false) (w : World) (cfg : MachineMap)
      (self key : String)
      → Kept (set_mesh w cfg self key)
  unfolding set_mesh
  set_mesh-Kept down w cfg self key =
      search
        (
          keeps_rules, Keeps-update, down, call-Kept, default_mesh_unblock-Kept, refresh-Kept,
          adjust_routing_rules-Kept,
        )
        depth 14 fits 6000

  pub un_set_mesh-Kept : (w : World) → Kept (un_set_mesh w)
  unfolding un_set_mesh
  un_set_mesh-Kept w = search (flag_rules, default_mesh_unblock-Kept) depth 12 fits 4000

  pub turn_mesh_off-Kept : (w : World) → Kept (turn_mesh_off w)
  unfolding turn_mesh_off
  turn_mesh_off-Kept w = search (flag_rules, un_set_mesh-Kept) depth 12 fits 4000

  pub refresh_incoming-Kept : (w : World) (peer : Peer) → Kept (refresh_incoming w peer)
  unfolding refresh_incoming
  refresh_incoming-Kept w peer =
      search (flag_rules, block_incoming-Kept, allow_incoming-Kept) depth 12 fits 4000

  pub reset_routing-Kept :
      (w : World) (peer : Peer) (peers : List Peer) → Kept (reset_routing w peer peers)
  unfolding reset_routing
  reset_routing-Kept w peer peers = search (flag_rules, refresh_incoming-Kept) depth 12 fits 4000

  pub set_lan_discovery-Kept : (w : World) (enabled : Bool) → Kept (set_lan_discovery w enabled)
  unfolding set_lan_discovery
  set_lan_discovery-Kept w enabled =
      search (flag_rules, adjust_routing_rules-Kept) depth 12 fits 4000

  pub set_allowlist-Kept : (w : World) (allowlist : Allowlist) → Kept (set_allowlist w allowlist)
  unfolding set_allowlist
  set_allowlist-Kept w allowlist =
      search (flag_rules, unset_allowlist-Kept, set_allowlist_rules-Kept) depth 12 fits 4000

  pub deny_ipv6-Kept : (w : World) → Kept (deny_ipv6 w)
  unfolding deny_ipv6
  deny_ipv6-Kept w = search (flag_rules) depth 12 fits 4000

  pub permit_ipv6-Kept : (w : World) → Kept (permit_ipv6 w)
  unfolding permit_ipv6
  permit_ipv6-Kept w = search (flag_rules) depth 12 fits 4000

  pub use_dns-Kept : (w : World) (ns : List String) → Kept (use_dns w ns)
  unfolding use_dns
  use_dns-Kept w ns = search (flag_rules) depth 12 fits 4000

  pub drop_dns-Kept : (w : World) → Kept (drop_dns w)
  unfolding drop_dns
  drop_dns-Kept w = search (flag_rules) depth 12 fits 4000

  pub handle_network_changed-Kept : (w : World) → Kept (handle_network_changed w)
  unfolding handle_network_changed
  handle_network_changed-Kept w = search (flag_rules, reset_allowlist-Kept) depth 12 fits 4000

  pub enable_routing-Kept : (w : World) → Kept (enable_routing w)
  unfolding enable_routing
  enable_routing-Kept w = search (flag_rules) depth 12 fits 4000

  pub disable_routing-Kept : (w : World) → Kept (disable_routing w)
  unfolding disable_routing
  disable_routing-Kept w = search (flag_rules) depth 12 fits 4000

  pub set_rules-Kept : (w : World) (allowlist : Allowlist) → Kept (set_rules w allowlist)
  unfolding set_rules add_rules
  set_rules-Kept w allowlist =
      search (flag_rules, block_traffic-Kept, set_allowlist_rules-Kept) depth 12 fits 4000

  pub unset_rules-Kept : (w : World) → Kept (unset_rules w)
  unfolding unset_rules delete_rules
  unset_rules-Kept w =
      search (flag_rules, unblock_traffic-Kept, unset_allowlist-Kept) depth 12 fits 4000
