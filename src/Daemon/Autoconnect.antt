-- ===== src/Daemon/Autoconnect.antt =====
-- Autoconnect: daemon/rpc_set_autoconnect.go, and `GetServerParameters` of daemon/servers.go.
use nordvpn_linux.Prelude.{
  Bool, true, false, not, ◌&&◌, if◌then◌else◌, Option, none, some, List, [], Text,
}
use nordvpn_linux.Config.{Config, get_true_field}
use nordvpn_linux.Config.Group
use nordvpn_linux.Config.Group.{ServerGroup}
use nordvpn_linux.Servers.{Server, is_server_obfuscated}
use nordvpn_linux.Servers.Names.{Country, City, group_convert, location_by_name}
use nordvpn_linux.Servers.Select.{not_logged_in, Criteria, Picked, picked, panicked, is_empty}
use nordvpn_linux.Servers.Dedicated.{Surroundings, select_server}
use nordvpn_linux.Daemon.State.{
  Env, Daemon, Event, Reply, payload, failed, refusal, crashed, success, nothing_to_do,
  config_error, load_config, save_config, publish, loading, saving,
}
use nordvpn_linux.Daemon.Tunnel.{obfuscation_mismatch}

pub record ServerParameters : Type 0 where
  pub country : Text
  pub city : Text
  pub group : ServerGroup

abbrev parameters_of : ServerGroup → Option (Country × Option City) → ServerParameters
parameters_of group none = record { country = []; city = []; group = group }
parameters_of group (some (country, none)) = record {
  country = country.name;
  city = [];
  group = group;
}
parameters_of group (some (country, some city)) = record {
  country = country.name;
  city = city.name;
  group = group;
}

unfoldable pub get_server_parameters :
    (Text → Text → Bool) → Text → Text → List Country → ServerParameters
unfolding location_by_name group_convert
get_server_parameters equal_fold server_tag group_tag countries =
    parameters_of (group_convert group_tag) (location_by_name equal_fold server_tag countries)

abbrev pub no_parameters : ServerParameters
no_parameters = record { country = []; city = []; group = Group.undefined }

-- The data of the daemon that the request reads: the cached servers and countries, and whether virtual
-- servers are allowed.
pub record Cached : Type 0 where
  pub servers : List Server
  pub countries : List Country

-- the arguments that `selectServer` takes from the configuration
abbrev pub criteria : Cached → Text → Config → Criteria
criteria cached tag cfg = record {
  countries = cached.countries;
  servers = cached.servers;
  technology = cfg.technology;
  protocol = cfg.auto_connect_data.protocol;
  obfuscated = cfg.auto_connect_data.obfuscate;
  tag = tag;
  group_flag = [];
  allow_virtual_server = get_true_field cfg.virtual_location;
}

unfoldable pub save_enabled : Env → Text → ServerParameters → Config → Daemon → Daemon × Reply
unfolding save_config publish
save_enabled env tag parameters cfg d =
    let change = λ (c : Config). record c {
      auto_connect = true;
      auto_connect_data = record (cfg.auto_connect_data) {
        server_tag = tag;
        country = parameters.country;
        city = parameters.city;
        group = parameters.group;
      };
    } in
    saving env change (payload config_error) d
      λ d. (publish (Event.auto_connect true) d, payload success)

-- The errors of a selection that carry a code are answered with it.
unfoldable pub on_selected :
    Env → Text → ServerParameters → Config → Picked → Daemon → Daemon × Reply
on_selected env tag parameters cfg (picked s remote) d = save_enabled env tag parameters cfg d
on_selected env tag parameters cfg (Picked.failed e) d = (d, refusal e)
on_selected env tag parameters cfg panicked d = (d, crashed)

unfoldable pub enable_auto_connect :
    Env → Surroundings → Cached → Text → Config → Daemon → Daemon × Reply
unfolding get_server_parameters
enable_auto_connect env s cached tag cfg d =
    let parameters = get_server_parameters s.equal_fold tag tag cached.countries in
    elim (obfuscation_mismatch (is_server_obfuscated cached.servers tag)
      cfg.auto_connect_data.obfuscate) [
        | some code ↦ (d, payload code)
        | none ↦
            if is_empty tag
            then save_enabled env tag no_parameters cfg d
            else on_selected env tag parameters cfg (select_server s (criteria cached tag cfg)) d
      ]

-- the request of a logged-in user, on the configuration that was loaded
unfoldable pub change_auto_connect :
    Env → Surroundings → Cached → Bool → Text → Config → Daemon → Daemon × Reply
unfolding save_config publish
change_auto_connect env s cached enabled tag cfg d =
    if not cfg.auto_connect && not enabled
    then (d, payload nothing_to_do)
    else if enabled
    then enable_auto_connect env s cached tag cfg d
    else saving env (λ c. record c { auto_connect = false }) (payload config_error) d
        λ d. (publish (Event.auto_connect false) d, payload success)

unfoldable pub set_auto_connect :
    Env → Surroundings → Cached → Bool → Bool → Text → Daemon → Daemon × Reply
unfolding load_config
set_auto_connect env s cached logged_in enabled tag d =
    if not logged_in
    then (d, failed not_logged_in)
    else loading env d (change_auto_connect env s cached enabled tag)
