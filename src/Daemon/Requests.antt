-- ===== src/Daemon/Requests.antt =====
-- All settings requests as one type, each with the answers of the collaborators that it alone asks.
use nordvpn_linux.Prelude.{ℕ, ℤ, Bool, List, [], ◌∷◌, String, Text}
use nordvpn_linux.Config.{Technology, Protocol}
use nordvpn_linux.Config.Allowlist.{Allowlist}
use nordvpn_linux.Config.Manager.{Io}
use nordvpn_linux.Servers.{Server}
use nordvpn_linux.Servers.Dedicated.{Surroundings}
use nordvpn_linux.Daemon.State.{Env, Daemon, Reply}
use nordvpn_linux.Daemon.Subnets.{AddressParser}
use nordvpn_linux.Daemon.Switches
use nordvpn_linux.Daemon.Tunnel
use nordvpn_linux.Daemon.Nameservers
use nordvpn_linux.Daemon.Allowlisting
use nordvpn_linux.Daemon.Allowlisting.{AllowlistRequest}
use nordvpn_linux.Daemon.Users
use nordvpn_linux.Daemon.Meshnet
use nordvpn_linux.Daemon.Meshnet.{MeshEnv}
use nordvpn_linux.Daemon.Autoconnect
use nordvpn_linux.Daemon.Autoconnect.{Cached}

pub data Request : Type 0 where
  set_firewall set_routing set_ipv6 set_virtual_location set_analytics set_postquantum :
      Bool → Request
  set_firewall_mark : ℕ → Request
  set_kill_switch : Bool → Allowlist → Request
  set_technology : Bool → Technology → Request
  set_protocol : Protocol → Request
  set_obfuscate : List Server → Bool → Request
  set_dns : AddressParser → (Bool → Bool → List String) → Bool → List String → Request
  set_threat_protection_lite : (Bool → Bool → List String) → Bool → Request
  change_allowlist : AddressParser → AllowlistRequest → Bool → Request
  unset_all_allowlist : Request
  set_lan_discovery : AddressParser → Bool → Request
  set_notify set_tray : ℤ → Bool → Request
  enable_meshnet : MeshEnv → Request
  disable_meshnet : Bool → Request
  set_defaults : Io → Bool → Request
  set_auto_connect : Surroundings → Cached → Bool → Bool → Text → Request

unfoldable pub handle : Env → Request → Daemon → Daemon × Reply
handle env (set_firewall enabled) d = Switches.set_firewall env enabled d
handle env (set_firewall_mark value) d = Switches.set_firewall_mark env value d
handle env (set_kill_switch enabled allowlist) d = Switches.set_kill_switch env enabled allowlist d
handle env (set_routing enabled) d = Switches.set_routing env enabled d
handle env (set_ipv6 enabled) d = Switches.set_ipv6 env enabled d
handle env (set_virtual_location enabled) d = Switches.set_virtual_location env enabled d
handle env (set_analytics enabled) d = Switches.set_analytics env enabled d
handle env (set_technology has_vpn technology) d = Tunnel.set_technology env has_vpn technology d
handle env (set_protocol protocol) d = Tunnel.set_protocol env protocol d
handle env (set_postquantum enabled) d = Tunnel.set_postquantum env enabled d
handle env (set_obfuscate servers enabled) d = Tunnel.set_obfuscate env servers enabled d
handle env (set_dns parser defaults is6 dns) d = Nameservers.set_dns env parser defaults is6 dns d
handle env (set_threat_protection_lite defaults enabled) d =
    Nameservers.set_threat_protection_lite env defaults enabled d
handle env (change_allowlist parser request removing) d =
    Allowlisting.change_allowlist env parser request removing d
handle env unset_all_allowlist d = Allowlisting.unset_all_allowlist env d
handle env (set_lan_discovery parser enabled) d =
    Allowlisting.set_lan_discovery env parser enabled d
handle env (set_notify uid enabled) d = Users.set_notify env uid enabled d
handle env (set_tray uid enabled) d = Users.set_tray env uid enabled d
handle env (enable_meshnet m) d = Meshnet.enable_meshnet env m d
handle env (disable_meshnet peer_connected) d = Meshnet.disable_meshnet env peer_connected d
handle env (set_defaults reload_io has_vpn) d = Meshnet.set_defaults env reload_io has_vpn d
handle env (set_auto_connect s cached logged_in enabled tag) d =
    Autoconnect.set_auto_connect env s cached logged_in enabled tag d

-- the daemon serves one request after another
unfoldable pub serve : List (Env × Request) → Daemon → Daemon
serve [] d = d
serve ((env, request) ∷ rest) d = serve rest (handle env request d).0
