-- ===== src/Daemon/State.antt =====
-- What a settings request reads and changes: the configuration file, the requests made to the
-- networker and to its other collaborators, and the events published.
use nordvpn_linux.Prelude.{ℤ, Bool, not, Option, none, some, List, ◌∷◌, String, if◌then◌else◌}
use nordvpn_linux.Config.{Config, Technology, Protocol}
use nordvpn_linux.Config.Allowlist.{Allowlist}
use nordvpn_linux.Config.Manager
use nordvpn_linux.Servers.Select.{Err}
use nordvpn_linux.Config.Manager.{File, Io, Saved}

-- Calls of networker.Networker, and of the other parts that a request asks to act.
pub data Call : Type 0 where
  set_kill_switch : Allowlist → Call
  unset_kill_switch enable_firewall disable_firewall enable_routing disable_routing : Call
  set_allowlist : Allowlist → Call
  set_lan_discovery : Bool → Call
  set_dns : List String → Call
  set_vpn : Technology → Call
  stop_vpn set_mesh unset_mesh : Call
  enable_analytics disable_analytics : Call
  restart_norduser : ℤ → Call

pub data Event : Type 0 where
  kill_switch firewall routing obfuscate postquantum virtual_location auto_connect ipv6 :
      Bool → Event
  threat_protection_lite lan_discovery notify mesh : Bool → Event
  technology : Technology → Event
  protocol : Protocol → Event
  dns : List String → Event
  allowlist : Allowlist → Event
  defaults : Config → Event
  -- the configuration that `SaveWith` publishes
  config_changed : Config → Event

-- `calls` and `events` hold the latest first.
pub record Daemon : Type 0 where
  pub file : File
  pub calls : List Call
  pub events : List Event

-- The answers of the daemon's surroundings during one request: the file system at the handler's own
-- load and in `SaveWith`, the collaborators' errors, and whether a VPN connection is up.
pub record Env : Type 0 where
  pub load_io : Io
  pub save_io : Io
  pub refuses : Call → Bool
  pub vpn_active : Bool

-- r.cm.Load(&cfg): the configuration, the absence of an error, the daemon
unfoldable pub load_config : Env → Daemon → Config × Bool × Daemon
unfolding Manager.load
load_config env d =
    let (cfg, loaded, file) = Manager.load env.load_io d.file in
    (cfg, loaded, record d { file = file })

-- the event of an optional publication
abbrev publish_some : Option Config → List Event → List Event
publish_some none es = es
publish_some (some c) es = config_changed c ∷ es

-- r.cm.SaveWith(fn): the absence of an error, the daemon
unfoldable pub save_config : Env → (Config → Config) → Daemon → Bool × Daemon
unfolding Manager.save_with
save_config env fn d =
    let s = Manager.save_with env.save_io fn d.file in
    (s.succeeded, record d { file = s.file; events = publish_some s.published d.events })

-- a collaborator's method that may return an error: the absence of an error, the daemon
unfoldable pub call : Env → Call → Daemon → Bool × Daemon
call env c d = (not (env.refuses c), record d { calls = c ∷ d.calls })

unfoldable pub publish : Event → Daemon → Daemon
publish e d = record d { events = e ∷ d.events }

-- internal/codes.go, as far as the settings use it
pub data Code : Type 0 where
  success nothing_to_do failure config_error dependency_error kill_switch_error : Code
  auto_connect_server_not_obfuscated auto_connect_server_obfuscated : Code
  private_subnet_lan_discovery allowlist_invalid_subnet allowlist_subnet_noop : Code
  allowlist_port_out_of_range allowlist_port_noop : Code
  pq_and_meshnet_simultaneously pq_without_nordlynx : Code
  dedicated_ip_renew dedicated_ip_service_but_no_servers dedicated_ip_no_server : Code

-- the status messages of protobuf/daemon/set.proto and protobuf/meshnet/service_response.proto
pub data Status : Type 0 where
  already_set set_config_error set_failure : Status
  protocol_invalid_technology protocol_configured protocol_configured_vpn_on : Status
  tpl_configured tpl_configured_dns_reset : Status
  dns_too_many_values dns_invalid_address dns_configured dns_configured_tpl_reset : Status
  discovery_configured discovery_configured_allowlist_reset : Status
  mesh_not_logged_in mesh_not_registered mesh_config_failure mesh_already_enabled : Status
  mesh_already_disabled mesh_conflict_with_pq mesh_api_failure mesh_lib_failure : Status
  mesh_tunnel_closed mesh_empty : Status

pub data Reply : Type 0 where
  payload : Code → Reply
  payload_with : Code → List String → Reply
  response : Status → Reply
  -- no payload, but an error
  failed : Err → Reply
  -- the handler panics
  crashed : Reply

-- The three steps of a handler, with the rest of the handler as a function. A failed load is logged,
-- and the handler goes on.
abbrev pub loading : Env → Daemon → (Config → Daemon → Daemon × Reply) → Daemon × Reply
loading env d rest = let (cfg, loaded, d') = load_config env d in rest cfg d'

abbrev pub calling : Env → Call → Reply → Daemon → (Daemon → Daemon × Reply) → Daemon × Reply
calling env c refused d rest =
    let (accepted, d') = call env c d in if accepted then rest d' else (d', refused)

abbrev pub saving :
    Env → (Config → Config) → Reply → Daemon → (Daemon → Daemon × Reply) → Daemon × Reply
saving env fn refused d rest =
    let (saved, d') = save_config env fn d in if saved then rest d' else (d', refused)

-- the answer to an error: its code, where it is an `ErrorWithCode`
abbrev pub refusal : Err → Reply
refusal Err.dedicated_ip_renew_error = payload dedicated_ip_renew
refusal Err.dedicated_ip_service_but_no_servers = payload Code.dedicated_ip_service_but_no_servers
refusal Err.dedicated_ip_no_server = payload Code.dedicated_ip_no_server
refusal e = failed e
