-- ===== src/Networker/Mesh.antt =====
-- The mesh network of the networker.
use Prim.Native.String
use Prim.Native.String.{String}
use nordvpn_linux.Prelude.{
  string_eq, Bool, true, false, not, ◌&&◌, ◌||◌, ◌==◌, List, [], ◌∷◌, map, filter, contains,
  if◌then◌else◌,
}
use nordvpn_linux.Prelude.Action.{
  succeed, fail, update, reading, ignoring, recovering, catching, ◌>>◌, when, for_each,
}
use nordvpn_linux.Networker.{
  World, Combined, Method, Error, Peer, MachineMap, Host, mesh_not_active, mesh_already_set,
  tunnel_closed, call, add_default_route, flush_router, cleanup_routing, add_mesh_route,
  flush_peer_router, set_hosts, unset_hosts, enable_exit_node, disable_exit_node, reset_peers,
  reset_exit_firewall, mesh_enable, mesh_refresh, mesh_disable,
}
use nordvpn_linux.Networker.Rules.{
  allow_incoming, allow_fileshare, block_incoming, default_mesh_block, default_mesh_unblock,
  rule_name, allow_incoming_rule,
}
use nordvpn_linux.Networker.Network.{adjust_routing_rules}

-- strings.TrimSuffix
unfoldable pub trim_suffix : String → String → String
trim_suffix suffix String.[] = ""
trim_suffix suffix (String.◌∷◌ c s) =
    let rest = String.◌∷◌ c (trim_suffix suffix s) in if String.◌∷◌ c s == suffix then "" else rest

-- the host of a machine: its nickname, where it has one, comes first
abbrev pub host_of : String → String → String → Host
host_of address hostname nickname =
    let short = trim_suffix ".nord" hostname in
    if nickname == ""
    then record { ip = address; fqdn = hostname; domain_names = short ∷ [] }
    else record {
      ip = address;
      fqdn = nickname;
      domain_names = String.◌++◌ nickname ".nord" ∷ hostname ∷ short ∷ [];
    }

module _ (w : World) where
  -- `getHostsFromConfig`
  unfoldable pub get_hosts_from_config : List Peer → List Host
  get_hosts_from_config peers =
      map (λ (p : Peer). host_of p.address p.hostname p.nickname)
        (filter (λ (p : Peer). w.is_valid_address p.address) peers)

  abbrev pub hosts_of : MachineMap → List Host
  hosts_of cfg =
      host_of cfg.machine.address cfg.machine.hostname cfg.machine.nickname
      ∷ get_hosts_from_config cfg.peers

  -- the loop over the peers in `refresh`
  unfoldable pub allow_peer : Peer → Method
  allow_peer peer = if not (w.is_valid_address peer.address) then succeed else do
    when peer.do_i_allow_inbound (
        allow_incoming w peer.public_key peer.address
          (peer.do_i_allow_routing && peer.do_i_allow_local_network))
    when peer.do_i_allow_fileshare (allow_fileshare w peer.public_key peer.address)

  abbrev lan_available : Combined → Bool
  lan_available n = n.lan_discovery || not n.is_network_set

  unfoldable pub refresh : MachineMap → Method
  unfolding call allow_peer get_hosts_from_config
  refresh cfg = do
    ignoring (default_mesh_unblock w)
    ignoring (call w unset_hosts)
    ignoring (call w disable_exit_node)
    call w enable_exit_node
    call w (mesh_refresh cfg)
    update λ n. record n { cfg = cfg }
    default_mesh_block w cfg.machine.address
    allow_incoming w cfg.machine.public_key cfg.machine.address true
    for_each allow_peer cfg.peers
    reading λ n. call w (reset_peers cfg.peers (lan_available n) n.is_kill_switch_set)
    call w (set_hosts (hosts_of cfg))

  -- the deferred function of `setMesh`
  undo_mesh : Bool → Method
  unfolding call
  undo_mesh routing_rules_set = do
    when routing_rules_set (ignoring (call w cleanup_routing))
    ignoring (default_mesh_unblock w)
    ignoring (call w unset_hosts)
    ignoring (call w disable_exit_node)
    ignoring (call w flush_peer_router)
    ignoring (call w mesh_disable)

  -- An error of the library that closed the tunnel too is told apart, and the VPN is off then.
  on_enable_error : Error → Method
  on_enable_error e = reading λ n.
      if n.is_vpn_set && not (w.mesh_is_active n.calls)
      then update (λ n. record n { is_vpn_set = false }) >> fail tunnel_closed
      else fail e

  -- the part of `setMesh` behind the routing rules
  join_mesh : MachineMap → Method
  unfolding call refresh
  join_mesh cfg = do call w add_mesh_route; refresh cfg

  unfoldable pub set_mesh : MachineMap → String → String → Method
  unfolding undo_mesh on_enable_error join_mesh call adjust_routing_rules
  set_mesh cfg self private_key = reading λ n.
      if n.is_meshnet_set then fail mesh_already_set else do
        recovering (undo_mesh false) do
          when n.is_vpn_set (ignoring (call w flush_router))
          catching on_enable_error (call w (mesh_enable self private_key))
          when n.is_vpn_set (call w add_default_route)
          adjust_routing_rules w false
        recovering (undo_mesh true) (join_mesh cfg)
        update λ n. record n { is_meshnet_set = true; last_private_key = private_key }

  unfoldable pub un_set_mesh : Method
  unfolding call
  un_set_mesh = reading λ n. if not n.is_meshnet_set then fail mesh_not_active else do
    call w unset_hosts
    default_mesh_unblock w
    call w disable_exit_node
    when (not n.is_vpn_set) (call w cleanup_routing)
    ignoring (call w flush_peer_router)
    when n.is_vpn_set (ignoring (call w flush_router))
    call w mesh_disable
    when n.is_vpn_set (call w add_default_route)
    update λ n. record n { is_meshnet_set = false }

  -- `UnSetMesh`
  unfoldable pub turn_mesh_off : Method
  unfolding un_set_mesh
  turn_mesh_off = do update λ n. record n { enable_local_traffic = true }; un_set_mesh

  unfoldable pub refresh_incoming : Peer → Method
  refresh_incoming peer = if not peer.do_i_allow_inbound then succeed else do
    reading λ n.
        when (contains n.rules (rule_name peer.public_key allow_incoming_rule peer.address))
          (block_incoming w peer.public_key peer.address)
    allow_incoming w peer.public_key peer.address
        (peer.do_i_allow_routing && peer.do_i_allow_local_network)

  unfoldable pub reset_routing : Peer → List Peer → Method
  unfolding refresh_incoming call
  reset_routing peer peers = do
    reading λ n. call w (reset_peers peers (lan_available n) n.is_kill_switch_set)
    refresh_incoming peer

  -- `SetLanDiscovery`; its errors are logged
  unfoldable pub set_lan_discovery : Bool → Method
  unfolding call
  set_lan_discovery enabled = do
    update λ n. record n { lan_discovery = enabled }
    reading λ n.
        when (n.is_meshnet_set || n.is_vpn_set)
          (ignoring (adjust_routing_rules w (w.is6 n.last_server.ip)))
    reading λ n. ignoring (call w (reset_exit_firewall (lan_available n) n.is_kill_switch_set))
