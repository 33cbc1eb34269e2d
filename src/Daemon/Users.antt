-- ===== src/Daemon/Users.antt =====
-- The settings of each Linux user: daemon/rpc_set_notify.go and daemon/rpc_set_tray.go. The maps of
-- the configuration hold `true` only.
use nordvpn_linux.Prelude.{
  ℤ, int_eq, Bool, true, false, not, ◌==◌, bool_eq, if◌then◌else◌, List, [], ◌∷◌, String, contains,
  insert, remove,
}
use nordvpn_linux.Config.{Config}
use nordvpn_linux.Daemon.State.{
  Env, Daemon, Call, Event, Reply, payload, payload_with, success, nothing_to_do, config_error,
  load_config, save_config, call, publish, loading, saving,
}

abbrev enabled_label : Bool → String
enabled_label true = "enabled"
enabled_label false = "disabled"

abbrev set_off : ℤ → Bool → List ℤ → List ℤ
set_off uid enabled off = if enabled then remove uid off else insert uid off

unfoldable pub set_notify : Env → ℤ → Bool → Daemon → Daemon × Reply
unfolding load_config save_config publish
set_notify env uid enabled d = loading env d λ cfg d.
    let current = not (contains cfg.notify_off uid) in
    let change = λ (c : Config). record c { notify_off = set_off uid enabled c.notify_off } in
    if enabled == current
    then (d, payload_with nothing_to_do (enabled_label current ∷ []))
    else saving env change (payload config_error) d
        λ d. (publish (Event.notify enabled) d, payload success)

-- an error of the restart is logged
unfoldable pub set_tray : Env → ℤ → Bool → Daemon → Daemon × Reply
unfolding load_config save_config call
set_tray env uid enabled d = loading env d λ cfg d.
    let current = not (contains cfg.tray_off uid) in
    let change = λ (c : Config). record c { tray_off = set_off uid enabled c.tray_off } in
    if enabled == current
    then (d, payload_with nothing_to_do (enabled_label current ∷ []))
    else saving env change (payload config_error) d
        λ d. let (_, d') = call env (Call.restart_norduser uid) d in (d', payload success)
