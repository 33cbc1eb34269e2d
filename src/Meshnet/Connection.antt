-- ===== src/Meshnet/Connection.antt =====
-- Starting and refreshing meshnet, routing through a peer, and the jobs: meshnet/server.go and
-- meshnet/jobs.go. The events of a connection are left out.
pub mod Faults
use nordvpn_linux.Prelude.{
  bool_eq, Bool, true, false, not, ◌&&◌, List, [], ◌∷◌, String, Option, none, some, if◌then◌else◌,
  string_eq, ◌==◌,
}
use nordvpn_linux.Prelude.Action.{succeed, fail, reading, ignoring, update, ◌>>◌, for_each}
use nordvpn_linux.Config.{Technology, technology_eq, nordlynx, udp}
use nordvpn_linux.Networker
use nordvpn_linux.Networker.{ServerData, Combined}
use nordvpn_linux.Networker.Rules
use nordvpn_linux.Networker.Mesh
use nordvpn_linux.Networker.Tunnel
use nordvpn_linux.Meshnet.{
  Backend, Server, Settings, Device, MachinePeer, Reply, Handler, ApiError, asking, requiring_login,
  loading, saving, or_log_out, with_device, on_networker, is_unauthorized, list_peers, map_peers,
  start_fileshare, not_registered, not_enabled, config_failure, api_failure, lib_failure,
  tech_failure, peer_does_not_allow_routing, peer_no_ip, already_connecting, already_connected,
  canceled, connect_failed,
}
use nordvpn_linux.Meshnet.Registration.{requiring_registration, register_device_again}
use nordvpn_linux.Meshnet.Peers.{listing}

module _ (b : Backend) where
  -- s.mc.Register()
  unfoldable pub registering : Handler
  unfolding register_device_again
  registering s =
      let (registered, s') = register_device_again b s in
      (if registered then none else some not_registered, s')

  -- an unauthorized request logs out, and is an error of the API all the same
  unfoldable pub on_map_error : ApiError → Handler
  unfolding saving
  on_map_error e =
      if is_unauthorized e
      then (do saving b (λ c. record c { token = "" }); fail api_failure)
      else fail api_failure

  -- `StartMeshnet`: the settings are those before the registration. The file sharing's error is ignored.
  unfoldable pub start_meshnet : Handler
  unfolding requiring_login loading registering with_device asking on_map_error on_networker
  start_meshnet = do
    requiring_login b
    loading b λ cfg. if not cfg.mesh then fail not_enabled else do
      registering
      with_device b cfg λ device. do
        asking b (map_peers cfg.token device.id) on_map_error (
            reading λ s.
              on_networker b
                (Mesh.set_mesh b.world (b.machine_map s.requests) device.address cfg.private_key)
                lib_failure)
        asking b (start_fileshare cfg.enabled_by_uid) (λ e. succeed) succeed

  unfoldable pub refresh_meshnet : Handler
  unfolding requiring_login requiring_registration loading with_device asking or_log_out
      on_networker
  refresh_meshnet = do
    requiring_login b
    loading b λ cfg. if not cfg.mesh then fail not_enabled else do
      requiring_registration b not_registered
      with_device b cfg λ device.
          asking b (map_peers cfg.token device.id) (or_log_out b api_failure) (
            reading
              λ s. on_networker b (Mesh.refresh b.world (b.machine_map s.requests)) api_failure)

  abbrev is_already_started : Networker.Error → Bool
  is_already_started Networker.already_started = true
  is_already_started _ = false

  -- the reply to an error of the networker's start
  unfoldable pub refusal : Networker.Error → Server → Reply
  refusal e s =
      if is_already_started e
      then already_connected
      else if b.is_canceled s.requests
      then canceled
      else connect_failed

  abbrev pub started : MachinePeer → Option Networker.Error × Combined → Handler
  unfolding refusal
  started peer (none, n) s = (none, record s { netw = n; last_connected_peer = peer.hostname })
  started peer (some e, n) s = (some (refusal e s), record s { netw = n })

  abbrev pub as_server : MachinePeer → ServerData
  as_server peer = record {
    ip = peer.address;
    hostname = peer.hostname;
    name = peer.nickname;
    country = "";
    city = "";
    protocol = udp;
    virtual_location = false;
  }

  abbrev pub nameservers_of : Settings → List String
  nameservers_of cfg = elim cfg.dns [
    | none ↦ b.nameservers cfg.threat_protection_lite
    | some dns ↦ dns
  ]

  -- what follows the search for the peer
  unfoldable pub start_peer : Settings → MachinePeer → Handler
  unfolding refusal
  start_peer cfg peer =
      if not peer.does_peer_allow_routing
      then fail peer_does_not_allow_routing
      else if not (b.world.is_valid_address peer.address)
      then fail peer_no_ip
      else λ s.
          started peer
            (Tunnel.connect b.world cfg.private_key (as_server peer) cfg.allowlist
              (nameservers_of cfg) (not peer.does_peer_allow_local_network) s.netw)
            s

  -- `connect`
  unfoldable pub connect_peer : String → Handler
  unfolding requiring_login requiring_registration loading listing start_peer
  connect_peer identifier = do
    requiring_login b
    requiring_registration b not_registered
    loading b λ cfg.
        if not cfg.mesh
        then fail not_enabled
        else if not (cfg.technology == nordlynx)
        then fail tech_failure
        else listing b cfg identifier λ device peers peer. start_peer cfg peer

  -- `Connect`, where another connection may be under way
  unfoldable pub connect : Bool → String → Handler
  unfolding connect_peer
  connect connecting identifier =
      if connecting then fail already_connecting else connect_peer identifier

  -- `listPeers`, as an error or what follows
  unfoldable pub with_peers : (List MachinePeer → Handler) → Handler
  unfolding loading with_device asking
  with_peers k = loading b λ cfg. with_device b cfg λ device.
      asking b (list_peers cfg.token device.id) (λ e. fail api_failure)
        (reading λ s. k (b.peers s.requests))

  abbrev pub toggled : Bool → MachinePeer → Networker.Method
  toggled up peer =
      if up
      then Rules.allow_fileshare b.world peer.public_key peer.address
      else Rules.block_fileshare b.world peer.public_key peer.address

  -- the loop of `JobMonitorFileshareProcess`
  unfoldable pub toggle_fileshare : Bool → Handler
  unfolding with_peers on_networker
  toggle_fileshare up =
      with_peers λ peers. for_each (λ p. ignoring (on_networker b (toggled up p) lib_failure)) peers

  abbrev is_success : Option Reply → Bool
  is_success none = true
  is_success (some r) = false

  -- `JobMonitorFileshareProcess`: the state that it remembers, and the server
  unfoldable pub monitor_fileshare_process : Bool → Bool → Server → Bool × Server
  unfolding toggle_fileshare
  monitor_fileshare_process old new s =
      let (r, s') = toggle_fileshare new s in
      if new == old then (old, s) else (if is_success r then new else old, s')
