-- ===== src/Tests/Settings.antt =====
-- Examples of settings requests.
use nordvpn_linux.Prelude.{
  succ, insert, pos, int_eq, string_eq, true, false, ◌==◌, none, some, List, [], ◌∷◌, contains,
  String, ◌≡◌, ◌⊎◌, refl, subst, arith,
}
use nordvpn_linux.Config.{Config, new_config, AutoConnectData}
use nordvpn_linux.Config.Allowlist.{Allowlist, Ports, new_allowlist, update_udp_ports}
use nordvpn_linux.Config.Manager
use nordvpn_linux.Config.Manager.Publishing.{save_with-published}
use nordvpn_linux.Daemon.State.{Env, Daemon, Call, payload, success}
use nordvpn_linux.Daemon.Subnets.{AddressParser}
use nordvpn_linux.Daemon.Switches
use nordvpn_linux.Daemon.Requests.{Request, handle, serve}
use nordvpn_linux.Daemon.Allowlisting.{
  subnet, ports, valid, get_new_allowlist, change_allowlist, contains_private_network,
}
use nordvpn_linux.Daemon.Allowlisting.Commit.{change_allowlist-commits}
use nordvpn_linux.Daemon.Allowlisting.Effect.{
  changed, is_requested, get_new_allowlist-ports, get_new_allowlist-subnet,
}
use nordvpn_linux.Daemon.Consistency.{IsConsistent, IsSettled}
use nordvpn_linux.Daemon.Consistency.Serving.{serve-IsSettled, set_kill_switch-load_error}

abbrev quiet : Manager.Io
quiet = record { read_fails = false; write_fails = false }

abbrev calm : Env
calm = record { load_io = quiet; save_io = quiet; refuses = λ c. false; vpn_active = false }

abbrev started : Config → Daemon
started c = record { file = Manager.valid c; calls = []; events = [] }

valid-IsSettled : (c : Config) → IsConsistent c → IsSettled (Manager.valid c)
valid-IsSettled c h d e = let same : c ≡ d = ground arith in subst IsConsistent same h

new_config-IsConsistent : IsConsistent new_config
new_config-IsConsistent = record {
  kill_switch_firewall = λ e. refl;
  mesh_postquantum = λ e. refl;
  postquantum_nordlynx = λ e. refl;
  nordlynx_udp = λ e. refl;
}

abbrev no_ports : Allowlist
no_ports = record { ports = record { tcp = []; udp = [] }; subnets = [] }

abbrev two_requests : List (Env × Request)
two_requests =
    (calm, Request.set_kill_switch true no_ports) ∷ (calm, Request.set_firewall false) ∷ []

-- the firewall stays on: the second request is refused
two_requests_served :
    (serve two_requests (started new_config)).file
    ≡ Manager.valid (record new_config { kill_switch = true })
unfolding serve handle Switches.set_firewall Switches.set_kill_switch
two_requests_served = refl

serve-IsSettled_example : IsSettled (serve two_requests (started new_config)).file
serve-IsSettled_example =
    serve-IsSettled two_requests (started new_config) (refl, (refl, tt))
      (valid-IsSettled new_config new_config-IsConsistent)

abbrev unprotected : Config
unprotected = record new_config { firewall = false }

-- the first reading fails
abbrev unread : Env
unread = record calm { load_io = record { read_fails = true; write_fails = false } }

set_kill_switch-load_error_example :
    ((Switches.set_kill_switch unread true no_ports (started unprotected)).0.file
      ≡ Manager.valid (record unprotected { kill_switch = true }))
    × ((Switches.set_kill_switch unread true no_ports (started unprotected)).1 ≡ payload success)
    × ¬ IsConsistent (record unprotected { kill_switch = true })
set_kill_switch-load_error_example =
    set_kill_switch-load_error unread no_ports unprotected (started unprotected) refl refl refl refl
      refl refl

-- every text is a subnet, and none is local
abbrev lenient : AddressParser
lenient = record { parse_prefix = λ s. none; is_cidr = λ s. true; is_ip = λ s. true }

abbrev ssh_allowed : Allowlist
ssh_allowed = record { ports = record { tcp = []; udp = pos 23 ∷ pos 22 ∷ [] }; subnets = [] }

ssh_accepted :
    get_new_allowlist lenient (ports true false (pos 22) (pos 23)) false new_config
    ≡ valid ssh_allowed
unfolding get_new_allowlist update_udp_ports new_allowlist insert succ
ssh_accepted = refl

get_new_allowlist-ports_example :
    (contains ssh_allowed.ports.udp (pos 22)
      ≡ changed true false (is_requested (pos 22) (pos 23) (pos 22)) (contains [] (pos 22)))
    × (contains ssh_allowed.ports.tcp (pos 22)
        ≡ changed false false (is_requested (pos 22) (pos 23) (pos 22)) (contains [] (pos 22)))
    × (ssh_allowed.subnets ≡ [])
unfolding new_allowlist
get_new_allowlist-ports_example =
    get_new_allowlist-ports lenient true false false (pos 22) (pos 23) (pos 22) new_config
      ssh_allowed ssh_accepted

abbrev office : String
office = "10.0.0.0/8"

abbrev office_allowed : Allowlist
office_allowed = record { ports = record { tcp = []; udp = [] }; subnets = office ∷ [] }

office_accepted : get_new_allowlist lenient (subnet office) false new_config ≡ valid office_allowed
unfolding get_new_allowlist contains new_allowlist nordvpn_linux.Config.Allowlist.update_subnets
    insert
office_accepted = refl

get_new_allowlist-subnet_example :
    (contains office_allowed.subnets office
      ≡ changed true false (office == office) (contains [] office))
    × (contains [] office ≡ false)
    × (lenient.is_cidr office ≡ true)
    × (office_allowed.ports ≡ new_config.auto_connect_data.allowlist.ports)
    × (new_config.lan_discovery ≡ true → contains_private_network lenient office ≡ false)
unfolding new_allowlist
get_new_allowlist-subnet_example =
    get_new_allowlist-subnet lenient office office false new_config office_allowed office_accepted

change_allowlist-commits_example :
    let request = ports true false (pos 22) (pos 23) in
    let out = change_allowlist calm lenient request false (started new_config) in
    ((b : Allowlist) × (get_new_allowlist lenient request false new_config ≡ valid b)
      × (calm.refuses (Call.set_allowlist b) ≡ false)
      × (out.1 ≡ payload success)
      × (out.0.file
          ≡ Manager.valid (record new_config {
            auto_connect_data = record (new_config.auto_connect_data) { allowlist = b };
          })))
    ⊎ (¬ (out.1 ≡ payload success)) × (out.0.file ≡ Manager.valid new_config)
change_allowlist-commits_example =
    change_allowlist-commits calm lenient (ports true false (pos 22) (pos 23)) false
      (started new_config) new_config refl refl refl

abbrev with_routing_off : Config → Config
with_routing_off c = record c { routing = some false }

save_with-published_example :
    let s = Manager.save_with quiet with_routing_off (Manager.valid new_config) in
    (s.succeeded ≡ true
      → s.published ≡ some (with_routing_off (Manager.load quiet (Manager.valid new_config)).0))
    × ((c : Config) → s.published ≡ some c → (s.succeeded ≡ true) × (s.file ≡ Manager.valid c))
unfolding Manager.load
save_with-published_example =
    save_with-published quiet with_routing_off (Manager.valid new_config) refl
