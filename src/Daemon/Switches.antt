-- ===== src/Daemon/Switches.antt =====
-- The on-off settings: daemon/rpc_set_firewall.go, rpc_set_killswitch.go, rpc_set_routing.go,
-- rpc_set_ipv6.go, rpc_set_virtual_servers.go and rpc_set_analytics.go.
use nordvpn_linux.Prelude.{ℕ, Bool, not, ◌&&◌, some, ◌==◌, bool_eq, nat_eq, if◌then◌else◌}
use nordvpn_linux.Config.{get_true_field}
use nordvpn_linux.Config.Allowlist.{Allowlist}
use nordvpn_linux.Daemon.State.{
  Env, Daemon, Call, Event, Reply, payload, success, nothing_to_do, failure, config_error,
  dependency_error, kill_switch_error, load_config, save_config, call, publish, loading, calling,
  saving,
}

unfoldable pub set_firewall : Env → Bool → Daemon → Daemon × Reply
unfolding load_config save_config call publish
set_firewall env enabled d = loading env d λ cfg d.
    if cfg.firewall == enabled
    then (d, payload nothing_to_do)
    else if cfg.kill_switch && not enabled
    then (d, payload dependency_error)
    else calling env (if enabled then Call.enable_firewall else Call.disable_firewall)
        (payload failure) d
        λ d.
          saving env (λ c. record c { firewall = enabled }) (payload config_error) d
            λ d. (publish (Event.firewall enabled) d, payload success)

unfoldable pub set_firewall_mark : Env → ℕ → Daemon → Daemon × Reply
unfolding load_config save_config
set_firewall_mark env value d = loading env d λ cfg d.
    if cfg.firewall_mark == value
    then (d, payload nothing_to_do)
    else saving env (λ c. record c { firewall_mark = value }) (payload config_error) d
        λ d. (d, payload success)

-- `allowlist` is the one that the request's lists give
unfoldable pub set_kill_switch : Env → Bool → Allowlist → Daemon → Daemon × Reply
unfolding load_config save_config call publish
set_kill_switch env enabled allowlist d = loading env d λ cfg d.
    if not cfg.firewall
    then (d, payload dependency_error)
    else if cfg.kill_switch == enabled
    then (d, payload nothing_to_do)
    else calling env (if enabled then Call.set_kill_switch allowlist else Call.unset_kill_switch)
        (payload kill_switch_error) d
        λ d.
          saving env (λ c. record c { kill_switch = enabled }) (payload config_error) d
            λ d. (publish (Event.kill_switch enabled) d, payload success)

-- `EnableRouting` and `DisableRouting` return nothing
unfoldable pub set_routing : Env → Bool → Daemon → Daemon × Reply
unfolding load_config save_config call publish
set_routing env enabled d = loading env d λ cfg d.
    if get_true_field cfg.routing == enabled
    then (d, payload nothing_to_do)
    else if cfg.mesh && not enabled
    then (d, payload dependency_error)
    else saving env (λ c. record c { routing = some enabled }) (payload config_error) d
        λ d.
          let (_, d') =
            call env (if enabled then Call.enable_routing else Call.disable_routing) d in
          (publish (Event.routing enabled) d', payload success)

unfoldable pub set_ipv6 : Env → Bool → Daemon → Daemon × Reply
unfolding load_config save_config publish
set_ipv6 env enabled d = loading env d λ cfg d.
    if cfg.ipv6 == enabled
    then (d, payload nothing_to_do)
    else saving env (λ c. record c { ipv6 = enabled }) (payload config_error) d
        λ d. (publish (Event.ipv6 enabled) d, payload success)

unfoldable pub set_virtual_location : Env → Bool → Daemon → Daemon × Reply
unfolding load_config save_config publish
set_virtual_location env enabled d = loading env d λ cfg d.
    if get_true_field cfg.virtual_location == enabled
    then (d, payload nothing_to_do)
    else saving env (λ c. record c { virtual_location = some enabled }) (payload config_error) d
        λ d. (publish (Event.virtual_location enabled) d, payload success)

unfoldable pub set_analytics : Env → Bool → Daemon → Daemon × Reply
unfolding load_config save_config call
set_analytics env enabled d = loading env d λ cfg d.
    if get_true_field cfg.analytics == enabled
    then (d, payload nothing_to_do)
    else calling env (if enabled then Call.enable_analytics else Call.disable_analytics)
        (payload config_error) d
        λ d.
          saving env (λ c. record c { analytics = some enabled }) (payload config_error) d
            λ d. (d, payload success)
