-- ===== src/Daemon/Consistency/Serving.antt =====
-- The settings stay consistent whatever the daemon is asked, and what a failed load does to them.
use nordvpn_linux.Prelude.{true, false, ◌≡◌, refl, arith, List, [], ◌∷◌, All}
use nordvpn_linux.Config.{Config}
use nordvpn_linux.Config.Allowlist.{Allowlist, new_allowlist}
use nordvpn_linux.Config.Manager.{valid}
use nordvpn_linux.Daemon.State.{Env, Daemon, Call, payload, success}
use nordvpn_linux.Daemon.Switches
use nordvpn_linux.Daemon.Allowlisting
use nordvpn_linux.Daemon.Requests.{Request, handle, serve}
use nordvpn_linux.Daemon.Consistency.{IsConsistent, IsSettled}
use nordvpn_linux.Daemon.Consistency.Steps.{
  set_firewall-IsSettled, set_firewall_mark-IsSettled, set_kill_switch-IsSettled,
  set_routing-IsSettled, set_ipv6-IsSettled, set_virtual_location-IsSettled,
  set_analytics-IsSettled, set_technology-IsSettled, set_protocol-IsSettled,
  set_postquantum-IsSettled, set_obfuscate-IsSettled,
}
use nordvpn_linux.Daemon.Consistency.Others.{
  set_dns-IsSettled, set_threat_protection_lite-IsSettled, handle_new_allowlist-IsSettled,
  set_lan_discovery-IsSettled, set_notify-IsSettled, set_tray-IsSettled, enable_meshnet-IsSettled,
  disable_meshnet-IsSettled,
}
use nordvpn_linux.Daemon.Consistency.Compound.{
  change_allowlist-IsSettled, set_defaults-IsSettled, set_auto_connect-IsSettled,
}

-- Any request whose own load does not fail on reading keeps a saved configuration consistent: the kill
-- switch needs the firewall, meshnet excludes post-quantum VPN, post-quantum VPN needs NordLynx, and
-- NordLynx needs UDP. It does so whatever the collaborators answer and whether or not the save succeeds.
pub handle-IsSettled :
    (env : Env) (request : Request) (d : Daemon)
    → env.load_io.read_fails ≡ false
    → IsSettled d.file
    → IsSettled (handle env request d).0.file
unfolding handle Allowlisting.unset_all_allowlist
handle-IsSettled env (Request.set_firewall enabled) d steady h =
    set_firewall-IsSettled env steady d.calls d.events enabled d.file h
handle-IsSettled env (Request.set_firewall_mark value) d steady h =
    set_firewall_mark-IsSettled env steady d.calls d.events value d.file h
handle-IsSettled env (Request.set_kill_switch enabled allowlist) d steady h =
    set_kill_switch-IsSettled env steady d.calls d.events enabled allowlist d.file h
handle-IsSettled env (Request.set_routing enabled) d steady h =
    set_routing-IsSettled env steady d.calls d.events enabled d.file h
handle-IsSettled env (Request.set_ipv6 enabled) d steady h =
    set_ipv6-IsSettled env steady d.calls d.events enabled d.file h
handle-IsSettled env (Request.set_virtual_location enabled) d steady h =
    set_virtual_location-IsSettled env steady d.calls d.events enabled d.file h
handle-IsSettled env (Request.set_analytics enabled) d steady h =
    set_analytics-IsSettled env steady d.calls d.events enabled d.file h
handle-IsSettled env (Request.set_technology has_vpn technology) d steady h =
    set_technology-IsSettled env steady d.calls d.events has_vpn technology d.file h
handle-IsSettled env (Request.set_protocol protocol) d steady h =
    set_protocol-IsSettled env steady d.calls d.events protocol d.file h
handle-IsSettled env (Request.set_postquantum enabled) d steady h =
    set_postquantum-IsSettled env steady d.calls d.events enabled d.file h
handle-IsSettled env (Request.set_obfuscate servers enabled) d steady h =
    set_obfuscate-IsSettled env steady d.calls d.events servers enabled d.file h
handle-IsSettled env (Request.set_dns parser defaults is6 dns) d steady h =
    set_dns-IsSettled env steady d.calls d.events parser defaults is6 dns d.file h
handle-IsSettled env (Request.set_threat_protection_lite defaults enabled) d steady h =
    set_threat_protection_lite-IsSettled env steady d.calls d.events defaults enabled d.file h
handle-IsSettled env (Request.change_allowlist parser request removing) d steady h =
    change_allowlist-IsSettled env steady d.calls d.events parser request removing d.file h
handle-IsSettled env (Request.set_lan_discovery parser enabled) d steady h =
    set_lan_discovery-IsSettled env steady d.calls d.events parser enabled d.file h
handle-IsSettled env (Request.set_notify uid enabled) d steady h =
    set_notify-IsSettled env steady d.calls d.events uid enabled d.file h
handle-IsSettled env (Request.set_tray uid enabled) d steady h =
    set_tray-IsSettled env steady d.calls d.events uid enabled d.file h
handle-IsSettled env (Request.enable_meshnet m) d steady h =
    enable_meshnet-IsSettled env steady d.calls d.events m d.file h
handle-IsSettled env (Request.disable_meshnet peer_connected) d steady h =
    disable_meshnet-IsSettled env steady d.calls d.events peer_connected d.file h
handle-IsSettled env (Request.set_defaults reload_io has_vpn) d steady h =
    set_defaults-IsSettled env steady d.calls d.events reload_io has_vpn d.file h
handle-IsSettled env (Request.set_auto_connect s cached logged_in enabled tag) d steady h =
    set_auto_connect-IsSettled env steady d.calls d.events s cached logged_in enabled tag d.file h
handle-IsSettled env Request.unset_all_allowlist d steady h =
    handle_new_allowlist-IsSettled env steady d.calls d.events (new_allowlist [] [] []) d.file h

-- Any sequence of requests whose own loads do not fail on reading keeps a saved configuration
-- consistent, whatever the collaborators answer: the kill switch needs the firewall, meshnet excludes
-- post-quantum VPN, post-quantum VPN needs NordLynx, and NordLynx needs UDP.
pub serve-IsSettled :
    (requests : List (Env × Request)) (d : Daemon)
    → All (λ r. r.0.load_io.read_fails ≡ false) requests
    → IsSettled d.file
    → IsSettled (serve requests d).file
unfolding serve
serve-IsSettled [] d steady h = h
serve-IsSettled ((env, request) ∷ rest) d steady h =
    serve-IsSettled rest (handle env request d).0 steady.1
      (handle-IsSettled env request d steady.0 h)

-- A handler logs the error of its own load and goes on with the default settings, which have the
-- firewall on. So where that load fails and the one in `SaveWith` does not, turning the kill switch on
-- succeeds with the firewall off, and the saved configuration is inconsistent.
pub set_kill_switch-load_error :
    (env : Env) (allowlist : Allowlist) (c : Config) (d : Daemon)
    → d.file ≡ valid c
    → c.firewall ≡ false
    → env.load_io.read_fails ≡ true
    → env.save_io.read_fails ≡ false
    → env.save_io.write_fails ≡ false
    → env.refuses (Call.set_kill_switch allowlist) ≡ false
    → ((Switches.set_kill_switch env true allowlist d).0.file
        ≡ valid (record c { kill_switch = true }))
      × ((Switches.set_kill_switch env true allowlist d).1 ≡ payload success)
      × ¬ IsConsistent (record c { kill_switch = true })
unfolding Switches.set_kill_switch
set_kill_switch-load_error env allowlist c d file off fails reads writes accepted =
    (ground arith, ground arith, λ h. ground (arith, h.kill_switch_firewall refl))
