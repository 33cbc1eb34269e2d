-- ===== src/Daemon/Tunnel.antt =====
-- The settings of the tunnel: daemon/rpc_set_technology.go, rpc_set_protocol.go,
-- rpc_set_postquantum.go and rpc_set_obfuscate.go.
use nordvpn_linux.Prelude.{
  Bool, true, false, not, ◌&&◌, ◌==◌, bool_eq, Option, none, some, if◌then◌else◌, List, [], ◌∷◌,
  String,
}
use nordvpn_linux.Config.{
  Config, Technology, unknown_technology, nordlynx, openvpn, technology_eq, Protocol, udp,
  protocol_eq,
}
use nordvpn_linux.Servers.{
  Server, ServerObfuscationStatus, server_obfuscated, server_not_obfuscated, not_a_server_name,
  is_server_obfuscated,
}
use nordvpn_linux.Daemon.State.{
  Env, Daemon, Call, Event, Reply, payload, payload_with, response, success, nothing_to_do,
  config_error, pq_and_meshnet_simultaneously, pq_without_nordlynx,
  auto_connect_server_not_obfuscated, auto_connect_server_obfuscated, Code, already_set,
  set_config_error, protocol_invalid_technology, protocol_configured, protocol_configured_vpn_on,
  load_config, save_config, call, publish, loading, saving,
}

abbrev technology_string : Technology → String
technology_string unknown_technology = "UNKNOWN_TECHNOLOGY"
technology_string openvpn = "OPENVPN"
technology_string nordlynx = "NORDLYNX"

-- strconv.FormatBool
abbrev pub format_bool : Bool → String
format_bool true = "true"
format_bool false = "false"

-- `has_vpn` is the absence of an error of `r.factory`
unfoldable pub set_technology : Env → Bool → Technology → Daemon → Daemon × Reply
unfolding load_config save_config call publish
set_technology env has_vpn technology d = loading env d λ cfg d.
    let to_nordlynx = technology == nordlynx in
    let protocol = if to_nordlynx then udp else cfg.auto_connect_data.protocol in
    let obfuscate = if to_nordlynx then false else cfg.auto_connect_data.obfuscate in
    let change = λ (c : Config). record c {
      technology = technology;
      auto_connect_data = record (c.auto_connect_data) {
        protocol = protocol;
        obfuscate = obfuscate;
      };
    } in
    if cfg.technology == technology
    then (d, payload_with nothing_to_do (technology_string technology ∷ []))
    else if not has_vpn
    then (d, payload config_error)
    else if not to_nordlynx && cfg.auto_connect_data.postquantum_vpn
    then (d, payload pq_without_nordlynx)
    else saving env change (payload config_error) d λ d.
      let (_, d') = call env (Call.set_vpn technology) d in
      (
        publish (Event.technology technology) d',
        payload_with success (format_bool env.vpn_active ∷ technology_string technology ∷ []),
      )

unfoldable pub set_protocol : Env → Protocol → Daemon → Daemon × Reply
unfolding load_config save_config publish
set_protocol env protocol d = loading env d λ cfg d.
    let change = λ (c : Config). record c {
      auto_connect_data = record (c.auto_connect_data) { protocol = protocol };
    } in
    if cfg.auto_connect_data.protocol == protocol
    then (d, response already_set)
    else if cfg.technology == nordlynx
    then (d, response protocol_invalid_technology)
    else saving env change (response set_config_error) d λ d. (
      publish (Event.protocol protocol) d,
      response (if env.vpn_active then protocol_configured_vpn_on else protocol_configured),
    )

unfoldable pub set_postquantum : Env → Bool → Daemon → Daemon × Reply
unfolding load_config save_config publish
set_postquantum env enabled d = loading env d λ cfg d.
    let change = λ (c : Config). record c {
      auto_connect_data = record (c.auto_connect_data) { postquantum_vpn = enabled };
    } in
    if cfg.auto_connect_data.postquantum_vpn == enabled
    then (d, payload nothing_to_do)
    else if cfg.mesh && enabled
    then (d, payload pq_and_meshnet_simultaneously)
    else if not (cfg.technology == nordlynx)
    then (d, payload pq_without_nordlynx)
    else saving env change (payload config_error) d
        λ d. (publish (Event.postquantum enabled) d, payload success)

-- The test of an autoconnect server against the obfuscation that is to be, with the refusal's code.
abbrev pub obfuscation_mismatch : ServerObfuscationStatus → Bool → Option Code
obfuscation_mismatch server_not_obfuscated obfuscate =
    if obfuscate then some auto_connect_server_not_obfuscated else none
obfuscation_mismatch server_obfuscated obfuscate =
    if obfuscate then none else some auto_connect_server_obfuscated
obfuscation_mismatch not_a_server_name obfuscate = none

-- `servers` are the cached ones
unfoldable pub set_obfuscate : Env → List Server → Bool → Daemon → Daemon × Reply
unfolding load_config save_config publish
set_obfuscate env servers enabled d = loading env d λ cfg d.
    let change = λ (c : Config). record c {
      auto_connect_data = record (c.auto_connect_data) { obfuscate = enabled };
    } in
    let status = is_server_obfuscated servers cfg.auto_connect_data.server_tag in
    let mismatch = if cfg.auto_connect then obfuscation_mismatch status enabled else none in
    if cfg.auto_connect_data.obfuscate == enabled
    then (d, payload nothing_to_do)
    else elim mismatch [
      | some code ↦ (d, payload code)
      | none ↦ saving env change (payload config_error) d λ d. (
        publish (Event.obfuscate enabled) d,
        payload_with success (format_bool env.vpn_active ∷ []),
      )
    ]
