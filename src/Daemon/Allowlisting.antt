-- ===== src/Daemon/Allowlisting.antt =====
-- The allowlist and LAN discovery: daemon/rpc_set_allowlist.go and daemon/rpc_set_lan_discovery.go.
pub mod Effect
pub mod Commit
use nordvpn_linux.Prelude.{
  ℕ, zero, suc, ℤ, pos, succ, ltb_ℤ, distance, int_eq, Bool, true, false, not, ◌&&◌, ◌||◌, ◌==◌,
  bool_eq, string_eq, if◌then◌else◌, List, [], ◌∷◌, String, contains, contains_func, filter, Option,
  none, some,
}
use nordvpn_linux.Config.{Config}
use nordvpn_linux.Config.Allowlist.{
  Allowlist, new_allowlist, update_udp_ports, update_tcp_ports, update_subnets,
}
use nordvpn_linux.Daemon.Subnets.{AddressParser, Prefix}
use nordvpn_linux.Daemon.State.{
  Env, Daemon, Call, Event, Code, Reply, payload, response, success, failure, config_error,
  private_subnet_lan_discovery, allowlist_invalid_subnet, allowlist_subnet_noop,
  allowlist_port_out_of_range, allowlist_port_noop, already_set, set_config_error, set_failure,
  discovery_configured, discovery_configured_allowlist_reset, load_config, save_config, call,
  publish, calling, saving,
}

abbrev is_local : Prefix → Bool
is_local p = p.is_private || p.is_link_local_unicast

unfoldable pub contains_private_network : AddressParser → String → Bool
contains_private_network parser subnet = elim (parser.parse_prefix subnet) [
  | none ↦ false
  | some p ↦ is_local p
]

-- none for a valid subnet, the code of the refusal otherwise
unfoldable pub is_subnet_valid : AddressParser → String → List String → Bool → Option Code
is_subnet_valid parser subnet current_subnets removing =
    if not (parser.is_cidr subnet)
    then some allowlist_invalid_subnet
    else if not (contains current_subnets subnet == removing)
    then some allowlist_subnet_noop
    else none

abbrev pub allowlist_min_port : ℤ
allowlist_min_port = pos 1

abbrev pub allowlist_max_port : ℤ
allowlist_max_port = pos 65535

-- `n` ports from the first one. The loops of Go compare int64 values, so they never end where the last
-- port is the largest one; the ports here stand for those below it.
count_up : ℕ → ℤ → List ℤ
count_up zero port = []
count_up (suc n) port = port ∷ count_up n (succ port)

-- none for valid ports, the code of the refusal otherwise; `port_end` is 0 for a single port
unfoldable pub are_ports_valid : ℤ → ℤ → List ℤ → Bool → Option Code
unfolding count_up
are_ports_valid port_start port_end current_ports removing =
    let start_outside =
      ltb_ℤ port_start allowlist_min_port || ltb_ℤ allowlist_max_port port_start in
    let listed = count_up (distance port_start (succ port_end)) port_start in
    if start_outside
    then some allowlist_port_out_of_range
    else if not (port_end == pos 0) && (start_outside || ltb_ℤ port_end port_start)
    then some allowlist_port_out_of_range
    else if removing && contains_func (λ port. not (contains current_ports port)) listed
    then some allowlist_port_noop
    else if port_end == pos 0 && not (contains current_ports port_start == removing)
    then some allowlist_port_noop
    else none

unfoldable pub get_ports_in_a_range : ℤ → ℤ → List ℤ
unfolding count_up
get_ports_in_a_range start stop = start ∷ count_up (distance start stop) (succ start)

-- `pb.SetAllowlistRequest`; `nothing` is a request with neither part
pub data AllowlistRequest : Type 0 where
  nothing : AllowlistRequest
  subnet : String → AllowlistRequest
  -- is_udp, is_tcp, start_port, end_port
  ports : Bool → Bool → ℤ → ℤ → AllowlistRequest

pub data NewAllowlist : Type 0 where
  valid : Allowlist → NewAllowlist
  invalid : Code → NewAllowlist

-- the two `if` statements of the port case, each of which may return
with_udp : Bool → ℤ → ℤ → Bool → Allowlist → NewAllowlist
unfolding are_ports_valid get_ports_in_a_range
with_udp is_udp start stop removing a =
    if not is_udp then valid a else elim (are_ports_valid start stop a.ports.udp removing) [
      | some code ↦ invalid code
      | none ↦ valid (update_udp_ports (get_ports_in_a_range start stop) removing a)
    ]

with_tcp : Bool → ℤ → ℤ → Bool → Allowlist → NewAllowlist
unfolding are_ports_valid get_ports_in_a_range
with_tcp is_tcp start stop removing a =
    if not is_tcp then valid a else elim (are_ports_valid start stop a.ports.tcp removing) [
      | some code ↦ invalid code
      | none ↦ valid (update_tcp_ports (get_ports_in_a_range start stop) removing a)
    ]

and_then_tcp : Bool → ℤ → ℤ → Bool → NewAllowlist → NewAllowlist
unfolding with_tcp
and_then_tcp is_tcp start stop removing (invalid code) = invalid code
and_then_tcp is_tcp start stop removing (valid a) = with_tcp is_tcp start stop removing a

-- `getNewAllowlist` on the configuration that was loaded
unfoldable pub get_new_allowlist : AddressParser → AllowlistRequest → Bool → Config → NewAllowlist
unfolding contains_private_network is_subnet_valid with_udp and_then_tcp
get_new_allowlist parser nothing removing cfg = valid cfg.auto_connect_data.allowlist
get_new_allowlist parser (subnet s) removing cfg =
    let allowlist = cfg.auto_connect_data.allowlist in
    if cfg.lan_discovery && contains_private_network parser s
    then invalid private_subnet_lan_discovery
    else elim (is_subnet_valid parser s allowlist.subnets removing) [
      | some code ↦ invalid code
      | none ↦ valid (update_subnets s removing allowlist)
    ]
get_new_allowlist parser (ports is_udp is_tcp start stop) removing cfg =
    and_then_tcp is_tcp start stop removing
      (with_udp is_udp start stop removing cfg.auto_connect_data.allowlist)

-- the networker first, then the configuration
unfoldable pub handle_new_allowlist : Env → Allowlist → Daemon → Daemon × Reply
unfolding save_config call publish
handle_new_allowlist env allowlist d =
    let change = λ (c : Config). record c {
      auto_connect_data = record (c.auto_connect_data) { allowlist = allowlist };
    } in
    calling env (Call.set_allowlist allowlist) (payload failure) d λ d.
      saving env change (payload config_error) d
        λ d. (publish (Event.allowlist allowlist) d, payload success)

unfoldable pub handle_if_valid : Env → NewAllowlist → Daemon → Daemon × Reply
handle_if_valid env (invalid code) d = (d, payload code)
handle_if_valid env (valid allowlist) d = handle_new_allowlist env allowlist d

-- `SetAllowlist`, and `UnsetAllowlist` where `removing` is true
unfoldable pub change_allowlist :
    Env → AddressParser → AllowlistRequest → Bool → Daemon → Daemon × Reply
unfolding load_config
change_allowlist env parser request removing d =
    let (cfg, loaded, d') = load_config env d in
    if not loaded
    then (d', payload config_error)
    else handle_if_valid env (get_new_allowlist parser request removing cfg) d'

unfoldable pub unset_all_allowlist : Env → Daemon → Daemon × Reply
unfolding handle_new_allowlist
unset_all_allowlist env d = handle_new_allowlist env (new_allowlist [] [] []) d

-- the subnets that the loop of `SetLANDiscovery` keeps: those that parse and are not local
abbrev is_public : AddressParser → String → Bool
is_public parser s = elim (parser.parse_prefix s) [ none ↦ false | some p ↦ not (is_local p) ]

unfoldable pub set_lan_discovery : Env → AddressParser → Bool → Daemon → Daemon × Reply
unfolding load_config save_config call publish contains_private_network
set_lan_discovery env parser enabled d =
    let (cfg, loaded, d₁) = load_config env d in
    let old = cfg.auto_connect_data.allowlist in
    let subnets = if enabled then filter (is_public parser) old.subnets else old.subnets in
    let allowlist = record old { subnets = subnets } in
    let reset = enabled && contains_func (contains_private_network parser) old.subnets in
    let change = λ (c : Config). record c {
      lan_discovery = enabled;
      auto_connect_data = record (c.auto_connect_data) {
        allowlist = record (c.auto_connect_data.allowlist) { subnets = subnets };
      };
    } in
    let (_, d₂) = call env (Call.set_lan_discovery enabled) d₁ in
    if not loaded
    then (d₁, response set_config_error)
    else if cfg.lan_discovery == enabled
    then (d₁, response already_set)
    else calling env (Call.set_allowlist allowlist) (response set_failure) d₂ λ d₃.
      saving env change (response set_config_error) d₃ λ d₄.
        let d₅ = publish (Event.lan_discovery enabled) d₄ in
        (
          if enabled then publish (Event.allowlist allowlist) d₅ else d₅,
          response (if reset then discovery_configured_allowlist_reset else discovery_configured),
        )
