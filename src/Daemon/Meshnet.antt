-- ===== src/Daemon/Meshnet.antt =====
-- Turning meshnet on and off (meshnet/server.go) and restoring the default settings
-- (daemon/rpc_set_defaults.go). Tokens, keys and the file sharing daemon are left out.
use nordvpn_linux.Prelude.{Bool, true, false, not, bool_eq, if◌then◌else◌, Option, none, some}
use nordvpn_linux.Config.Manager
use nordvpn_linux.Config.Manager.{Io}
use nordvpn_linux.Daemon.State.{
  Env, Daemon, Call, Event, Reply, payload, response, success, failure, config_error,
  mesh_not_logged_in, mesh_not_registered, mesh_config_failure, mesh_already_enabled,
  mesh_already_disabled, mesh_conflict_with_pq, mesh_api_failure, mesh_lib_failure,
  mesh_tunnel_closed, mesh_empty, load_config, save_config, call, publish, calling, saving,
}

-- The answers of the collaborators of `EnableMeshnet`: the error of the registry's map says whether it
-- is core.ErrUnauthorized, and a refusal of `SetMesh` whether it is ErrTunnelClosed.
pub record MeshEnv : Type 0 where
  pub logged_in : Bool
  pub registered : Bool
  pub map_error : Option Bool
  pub tunnel_closed : Bool

-- the logout that an unauthorized request is answered with changes no setting
unfoldable pub enable_meshnet : Env → MeshEnv → Daemon → Daemon × Reply
unfolding load_config save_config call publish
enable_meshnet env m d =
    let (cfg, loaded, d₁) = load_config env d in
    if not m.logged_in
    then (d, response mesh_not_logged_in)
    else if not m.registered
    then (d, response mesh_not_registered)
    else if not loaded
    then (d₁, response mesh_config_failure)
    else if cfg.mesh
    then (d₁, response mesh_already_enabled)
    else if cfg.auto_connect_data.postquantum_vpn
    then (d₁, response mesh_conflict_with_pq)
    else elim m.map_error [
      | some unauthorized ↦
          if unauthorized
          then (saving env (λ c. c) (response mesh_config_failure) d₁
              λ d₂. (d₂, response mesh_not_logged_in))
          else (d₁, response mesh_api_failure)
      | none ↦
          let refused = if m.tunnel_closed then mesh_tunnel_closed else mesh_lib_failure in
          calling env Call.set_mesh (response refused) d₁ λ d₂.
            saving env (λ c. record c { mesh = true }) (response mesh_config_failure) d₂
              λ d₃. (publish (Event.mesh true) d₃, response mesh_empty)
    ]

-- `peer_connected` says that the last server is the peer that the device was connected to
unfoldable pub disable_meshnet : Env → Bool → Daemon → Daemon × Reply
unfolding load_config save_config call publish
disable_meshnet env peer_connected d =
    let (cfg, loaded, d₁) = load_config env d in
    let d₂ = if peer_connected then (call env Call.stop_vpn d₁).1 else d₁ in
    let d₃ = (call env Call.unset_mesh d₂).1 in
    if not loaded
    then (d₁, response mesh_config_failure)
    else if not cfg.mesh
    then (d₁, response mesh_already_disabled)
    else saving env (λ c. record c { mesh = false }) (response mesh_config_failure) d₃
        λ d₄. (publish (Event.mesh false) d₄, response mesh_empty)

-- `save_io` is the file system at the reset, `reload_io` at the load behind it, and `has_vpn` the
-- absence of an error of `r.factory`. The notification client's errors are logged.
unfoldable pub set_defaults : Env → Io → Bool → Daemon → Daemon × Reply
unfolding load_config Manager.reset Manager.load call publish
set_defaults env reload_io has_vpn d =
    let (_, loaded, d₁) = load_config env d in
    if not loaded
    then (d₁, payload failure)
    else calling env Call.stop_vpn (payload failure) d₁ λ d₂.
      let d₃ = (call env Call.unset_mesh d₂).1 in
      let (written, file) = Manager.reset env.save_io d₃.file in
      let (cfg, _, file') = Manager.load reload_io file in
      let d₄ = record d₃ { file = file' } in
      if not written
      then (record d₃ { file = file }, payload config_error)
      else if not has_vpn
      then (d₄, payload config_error)
      else (
        publish (Event.defaults cfg) (call env (Call.set_vpn cfg.technology) d₄).1,
        payload success,
      )
