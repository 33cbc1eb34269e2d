-- ===== src/Daemon/Nameservers.antt =====
-- The nameserver settings: daemon/rpc_set_dns.go and daemon/rpc_set_threat_protection_lite.go.
use nordvpn_linux.Prelude.{
  Bool, true, false, not, ◌&&◌, ◌==◌, bool_eq, string_eq, if◌then◌else◌, List, [], ◌∷◌, String,
  codes, text_leb, length, ltb, contains_func,
}
use nordvpn_linux.Config.{Config}
use nordvpn_linux.Servers.Select.{is_empty}
use nordvpn_linux.Daemon.Subnets.{AddressParser}
use nordvpn_linux.Daemon.State.{
  Env, Daemon, Call, Event, Reply, response, already_set, set_config_error, set_failure,
  tpl_configured, tpl_configured_dns_reset, dns_too_many_values, dns_invalid_address,
  dns_configured, dns_configured_tpl_reset, load_config, save_config, call, publish, loading,
  calling, saving,
}

insert_string : String → List String → List String
insert_string s [] = s ∷ []
insert_string s (t ∷ ts) =
    let rest = insert_string s ts in if text_leb (codes s) (codes t) then s ∷ t ∷ ts else t ∷ rest

-- slices.Sort
unfoldable pub sort_strings : List String → List String
unfolding insert_string text_leb
sort_strings [] = []
sort_strings (s ∷ ss) = insert_string s (sort_strings ss)

-- slices.Equal
unfoldable pub equal_strings : List String → List String → Bool
equal_strings [] [] = true
equal_strings (s ∷ ss) (t ∷ ts) = s == t && equal_strings ss ts
equal_strings [] (t ∷ ts) = false
equal_strings (s ∷ ss) [] = false

-- The nameservers of a request are sorted in place, so it is the sorted ones that are saved.
-- `default_nameservers` is `r.nameservers.Get` and `endpoint_is6` the test of the endpoint's network.
unfoldable pub set_dns :
    Env → AddressParser → (Bool → Bool → List String) → Bool → List String → Daemon → Daemon × Reply
unfolding load_config save_config call publish sort_strings equal_strings
set_dns env parser default_nameservers endpoint_is6 dns d = loading env d λ cfg d.
    let old_tpl = cfg.auto_connect_data.threat_protection_lite in
    let sorted = sort_strings dns in
    let tpl = if old_tpl && not (is_empty sorted) then false else old_tpl in
    let nameservers = if is_empty sorted then default_nameservers tpl endpoint_is6 else sorted in
    let change = λ (c : Config). record c {
      auto_connect_data = record (c.auto_connect_data) {
        threat_protection_lite = tpl;
        dns = sorted;
      };
    } in
    if ltb 3 (length dns)
    then (d, response dns_too_many_values)
    else if equal_strings sorted (sort_strings cfg.auto_connect_data.dns)
    then (d, response already_set)
    else if contains_func (λ address. not (parser.is_ip address)) sorted
    then (d, response dns_invalid_address)
    else calling env (Call.set_dns nameservers) (response set_failure) d λ d.
      saving env change (response set_config_error) d λ d. (
        publish (Event.dns sorted) d,
        response (if tpl == old_tpl then dns_configured else dns_configured_tpl_reset),
      )

unfoldable pub set_threat_protection_lite :
    Env → (Bool → Bool → List String) → Bool → Daemon → Daemon × Reply
unfolding load_config save_config call publish
set_threat_protection_lite env default_nameservers enabled d = loading env d λ cfg d.
    let change = λ (c : Config). record c {
      auto_connect_data = record (c.auto_connect_data) {
        threat_protection_lite = enabled;
        dns = [];
      };
    } in
    let reset = not (is_empty cfg.auto_connect_data.dns) && enabled in
    if cfg.auto_connect_data.threat_protection_lite == enabled
    then (d, response already_set)
    else calling env (Call.set_dns (default_nameservers enabled cfg.ipv6))
        (response set_config_error) d
        λ d. saving env change (response set_config_error) d λ d. (
          publish (Event.threat_protection_lite enabled) d,
          response (if reset then tpl_configured_dns_reset else tpl_configured),
        )
