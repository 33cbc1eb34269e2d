-- ===== src/Meshnet/Switching.antt =====
-- Turning meshnet on and off: `EnableMeshnet` and `DisableMeshnet` of meshnet/server.go.
use nordvpn_linux.Prelude.{
  ℤ, Bool, true, false, not, ◌&&◌, Option, none, some, if◌then◌else◌, bool_eq, string_eq, ◌==◌,
}
use nordvpn_linux.Prelude.Action.{succeed, fail, reading, ignoring, when, ◌>>◌}
use nordvpn_linux.Networker
use nordvpn_linux.Networker.{Combined, MachineMap}
use nordvpn_linux.Networker.Mesh
use nordvpn_linux.Networker.Tunnel
use nordvpn_linux.Meshnet.{
  Backend, Settings, Device, Reply, Handler, asking, requiring_login, loading, saving, or_log_out,
  with_device, on_networker, map_peers, start_fileshare, stop_fileshare, api_failure, lib_failure,
  already_enabled, already_disabled, conflict_with_pq, tunnel_closed,
}
use nordvpn_linux.Meshnet.Connection.{registering}

-- `IsEqual` of mesh.Machine, which does not compare the public keys
unfoldable pub is_equal : Device → Device → Bool
is_equal s b =
    s.id == b.id
    && s.hardware_id == b.hardware_id
    && s.hostname == b.hostname
    && s.address == b.address
    && s.supports_routing == b.supports_routing
    && s.nickname == b.nickname

-- the device to save: the one of the API where it differs from the one of the settings
unfoldable pub renewed : Option Device → Device → Option Device
unfolding is_equal
renewed none machine = some machine
renewed (some d) machine = if is_equal d machine then some d else some machine

-- the settings once meshnet is on
unfoldable pub turned_on : ℤ → Device → Settings → Settings
unfolding renewed
turned_on uid machine c = record c {
  mesh = true;
  enabled_by_uid = uid;
  device = renewed c.device machine;
}

module _ (b : Backend) where
  -- the reply to an error of `SetMesh`
  abbrev pub mesh_error : Networker.Error → Reply
  mesh_error Networker.tunnel_closed = tunnel_closed
  mesh_error _ = lib_failure

  abbrev pub after_mesh : Option Networker.Error × Combined → Handler
  after_mesh (none, n) s = (none, record s { netw = n })
  after_mesh (some e, n) s = (some (mesh_error e), record s { netw = n })

  -- s.netw.SetMesh
  unfoldable pub setting_mesh : Settings → Device → MachineMap → Handler
  setting_mesh cfg device peers s =
      after_mesh (Mesh.set_mesh b.world peers device.address cfg.private_key s.netw) s

  -- `EnableMeshnet`: the user, and whether the process of the caller is known. Where it is not, the
  -- user is 0. The file sharing's error is ignored.
  unfoldable pub enable_meshnet : ℤ → Bool → Handler
  unfolding requiring_login registering loading with_device asking or_log_out setting_mesh saving
      turned_on
  enable_meshnet uid has_pid = do
    requiring_login b
    registering b
    loading b λ cfg.
        if cfg.mesh
        then fail already_enabled
        else if cfg.postquantum_vpn
        then fail conflict_with_pq
        else with_device b cfg λ device.
          asking b (map_peers cfg.token device.id) (or_log_out b api_failure) (
            reading λ s. do
              setting_mesh cfg device (b.machine_map s.requests)
              saving b (turned_on uid (b.machine s.requests)))
    when has_pid (asking b (start_fileshare uid) (λ e. succeed) succeed)

  -- `DisableMeshnet`, which asks for no login. Only the errors of the settings file are replies.
  unfoldable pub disable_meshnet : Handler
  unfolding loading asking on_networker saving
  disable_meshnet = loading b λ cfg. if not cfg.mesh then fail already_disabled else do
    asking b (stop_fileshare cfg.enabled_by_uid) (λ e. succeed) succeed
    reading λ s.
        when (s.netw.last_server.hostname == s.last_connected_peer)
          (ignoring (on_networker b (Tunnel.disconnect b.world) lib_failure))
    ignoring (on_networker b (Mesh.turn_mesh_off b.world) lib_failure)
    saving b λ c. record c { mesh = false }
