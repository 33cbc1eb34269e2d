-- ===== src/Networker/Tunnel.antt =====
-- Starting, stopping and refreshing the VPN.
use nordvpn_linux.Prelude.{
  string_eq, Bool, true, false, not, ◌&&◌, ◌==◌, List, [], String, none, some, if◌then◌else◌,
}
use nordvpn_linux.Prelude.Action.{
  succeed, fail, update, reading, ignoring, recovering, catching, ◌>>◌, when,
}
use nordvpn_linux.Config.{Technology}
use nordvpn_linux.Config.Allowlist.{Allowlist}
use nordvpn_linux.Networker.{
  World, Combined, Method, Error, ServerData, nil_vpn, already_started, call, tolerating,
  is_rule_already_exists, is_connected_to_vpn, vpn_start, vpn_stop, vpn_network_changed,
  setup_routing_rules, cleanup_routing, add_default_route, flush_router, set_dns, unset_dns,
  block_ipv6, unblock_ipv6, mesh_network_changed, enable_policy, disable_policy, enable_router,
  disable_router, enable_allowlist_router, disable_allowlist_router, enable_peer_router,
  disable_peer_router,
}
use nordvpn_linux.Networker.Rules.{stop_allowed_ipv6_traffic}
use nordvpn_linux.Networker.Network.{set_network, unset_network, unset_firewall, reset_allowlist}
use nordvpn_linux.Networker.Mesh.{refresh}

abbrev is_nil_vpn : Error → Bool
is_nil_vpn nil_vpn = true
is_nil_vpn _ = false

-- the server of the last connection, where the given one has no address
abbrev pub or_last : ServerData → Combined → ServerData
or_last server n = if server.ip == "" then n.last_server else server

module _ (w : World) where
  unfoldable pub deny_ipv6 : Method
  unfolding call
  deny_ipv6 = do
    update λ n. record n { ipv6_enabled = false }
    reading λ n. when n.is_network_set (call w block_ipv6)

  -- `PermitIPv6`
  unfoldable pub permit_ipv6 : Method
  unfolding call
  permit_ipv6 = do update λ n. record n { ipv6_enabled = true }; call w unblock_ipv6

  disable_ipv6_if_needed : Method
  unfolding deny_ipv6
  disable_ipv6_if_needed = reading λ n. when (not n.ipv6_enabled) deny_ipv6

  configure_dns : ServerData → List String → Method
  unfolding call
  configure_dns server nameservers = reading λ n. call w (
      set_dns
        (if n.is_meshnet_set && w.in_mesh_subnet server.ip then w.nameservers else nameservers))

  -- `SetDNS` and `UnsetDNS`
  unfoldable pub use_dns : List String → Method
  unfolding call is_connected_to_vpn
  use_dns nameservers = reading λ n.
      when (is_connected_to_vpn w n)
        do update λ n. record n { last_nameservers = nameservers }; call w (set_dns nameservers)

  unfoldable pub drop_dns : Method
  unfolding call is_connected_to_vpn
  drop_dns = reading λ n. when (is_connected_to_vpn w n) (call w unset_dns)

  -- an error of the network that is set already is only published
  on_network_error : Error → Method
  on_network_error e =
      if is_rule_already_exists e
      then succeed
      else reading λ n. if n.is_network_set then succeed else fail e

  configure_firewall : Allowlist → Method
  unfolding set_network reset_allowlist on_network_error
  configure_firewall allowlist = do
    catching on_network_error (set_network w allowlist)
    reset_allowlist w

  unfoldable pub configure_network : Allowlist → ServerData → List String → Method
  unfolding configure_firewall configure_dns disable_ipv6_if_needed call
  configure_network allowlist server nameservers = do
    configure_firewall allowlist
    call w add_default_route
    configure_dns server nameservers
    reading λ n. when n.is_meshnet_set (refresh w n.cfg)
    disable_ipv6_if_needed

  -- the `if` statement on the network in `failureRecover`
  unfoldable pub release_network : Method
  release_network =
      reading λ n. when (n.is_network_set && not n.is_kill_switch_set) (ignoring (unset_network w))

  unfoldable pub failure_recover : Method
  unfolding call
  failure_recover = do
    reading λ n. when (not n.is_meshnet_set) (ignoring (call w cleanup_routing))
    ignoring (call w flush_router)
    ignoring (call w vpn_stop)
    release_network
    reading λ n. when n.is_v6_traffic_allowed (ignoring (stop_allowed_ipv6_traffic w))
    update λ n. record n { is_vpn_set = false }

  -- the VPN's own start, with its stop on an error
  unfoldable pub launch : ServerData → Method
  unfolding call
  launch server = recovering (ignoring (call w vpn_stop)) (call w (vpn_start server))

  -- `start` from the start of the VPN to the configuration of the network
  unfoldable pub prepare : ServerData → Allowlist → List String → Method
  unfolding launch configure_network call
  prepare server allowlist nameservers = do
    launch server
    reading λ n. call w (
        setup_routing_rules (w.is6 server.ip) n.enable_local_traffic n.lan_discovery
          allowlist.subnets)
    configure_network allowlist server nameservers

  abbrev pub connected : String → ServerData → List String → Combined → Combined
  connected creds server nameservers n = record n {
    is_vpn_set = true;
    last_server = server;
    last_creds = creds;
    last_nameservers = nameservers;
    interfaces = w.default_interfaces n.calls;
  }

  unfoldable pub begin : String → ServerData → Allowlist → List String → Method
  unfolding prepare
  begin creds server allowlist nameservers =
      prepare server allowlist nameservers >> update (connected creds server nameservers)

  unfoldable pub has_vpn : Combined → Bool
  has_vpn n = elim n.vpnet [ none ↦ false | some _ ↦ true ]

  unfoldable pub start : String → ServerData → Allowlist → List String → Method
  unfolding failure_recover begin has_vpn
  start creds server allowlist nameservers = reading λ n.
      if n.is_vpn_set
      then fail already_started
      else if not (has_vpn n)
      then fail nil_vpn
      else recovering failure_recover (begin creds (or_last server n) allowlist nameservers)

  -- `switchToNextVpn`
  unfoldable pub switch_to_next_vpn : Combined → Combined
  switch_to_next_vpn n = elim n.next_vpn [
    | none ↦ n
    | some v ↦ record n { vpnet = some v; next_vpn = none }
  ]

  unfoldable pub resume : String → ServerData → List String → Method
  unfolding call switch_to_next_vpn launch configure_dns disable_ipv6_if_needed
  resume creds server nameservers = do
    ignoring (call w flush_router)
    call w vpn_stop
    update switch_to_next_vpn
    reading λ n. do
      launch (or_last server n)
      call w add_default_route
      configure_dns (or_last server n) nameservers
      ignoring disable_ipv6_if_needed
      update λ m. record m { last_server = or_last server n; last_creds = creds }

  unfoldable pub restart : String → ServerData → List String → Method
  unfolding failure_recover resume has_vpn
  restart creds server nameservers = reading λ n.
      if not (has_vpn n)
      then fail nil_vpn
      else recovering failure_recover (resume creds server nameservers)

  -- `Start`
  unfoldable pub connect : String → ServerData → Allowlist → List String → Bool → Method
  unfolding start restart is_connected_to_vpn
  connect creds server allowlist nameservers enable_local_traffic = do
    update λ n. record n { enable_local_traffic = enable_local_traffic }
    reading λ n.
        if is_connected_to_vpn w n
        then restart creds server nameservers
        else start creds server allowlist nameservers

  unfoldable pub stop : Method
  unfolding call has_vpn switch_to_next_vpn
  stop = reading λ n. if not (has_vpn n) then fail nil_vpn else do
    ignoring (call w unblock_ipv6)
    call w unset_dns
    reading λ n.
        if n.is_meshnet_set
        then call w (setup_routing_rules false true n.lan_discovery n.allowlist.subnets)
        else ignoring (call w cleanup_routing)
    ignoring (call w flush_router)
    call w vpn_stop
    unset_firewall w
    update switch_to_next_vpn
    update λ n. record n { is_vpn_set = false }

  -- `Stop`
  unfoldable pub disconnect : Method
  unfolding stop
  disconnect =
      reading λ n.
        when n.is_vpn_set do tolerating is_nil_vpn stop; update λ n. record n { interfaces = [] }

  -- `SetVPN`
  unfoldable pub set_vpn : Technology → Method
  set_vpn v = update λ n.
      if w.vpn_is_active n.calls
      then record n { next_vpn = some v }
      else record n { vpnet = some v }

  unfoldable pub enable_routing : Method
  unfolding call
  enable_routing = do
    ignoring (call w enable_policy)
    ignoring (call w enable_allowlist_router)
    ignoring (call w enable_router)
    ignoring (call w enable_peer_router)

  unfoldable pub disable_routing : Method
  unfolding call
  disable_routing = do
    ignoring (call w disable_allowlist_router)
    ignoring (call w disable_router)
    ignoring (call w disable_peer_router)
    ignoring (call w disable_policy)

  -- `handleNetworkChanged`, with `fixForLinuxMint20`, which waits a second between its calls
  unfoldable pub handle_network_changed : Method
  unfolding call
  handle_network_changed = do
    reading λ n. when n.is_meshnet_set (call w mesh_network_changed)
    reading λ n. when n.is_vpn_set do
      when (not (n.is_meshnet_set && w.mesh_is_vpn n.calls)) (call w vpn_network_changed)
      reading λ n. call w (set_dns n.last_nameservers)
      reading λ n. call w (set_dns n.last_nameservers)
      reset_allowlist w
