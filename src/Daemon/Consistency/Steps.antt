-- ===== src/Daemon/Consistency/Steps.antt =====
-- Every single request keeps the saved configuration consistent.
use nordvpn_linux.Prelude.{ℕ, Bool, false, bool_eq, nat_eq, List, ◌≡◌, refl, arith}
use nordvpn_linux.Config.{Technology, Protocol}
use nordvpn_linux.Config.Allowlist.{Allowlist}
use nordvpn_linux.Config.Manager.{File, valid}
use nordvpn_linux.Servers.{Server}
use nordvpn_linux.Daemon.State.{Env, Call, Event}
use nordvpn_linux.Daemon.Switches
use nordvpn_linux.Daemon.Tunnel
use nordvpn_linux.Daemon.Consistency.{IsSettled}

-- `env` reads the file without a fault; `cs` and `es` are the calls and events so far
module _ (env : Env) (steady : env.load_io.read_fails ≡ false) (cs : List Call)
    (es : List Event) where
  pub set_firewall-IsSettled :
      (enabled : Bool) (f : File)
      → IsSettled f
      → IsSettled
          (Switches.set_firewall env enabled (record { file = f; calls = cs; events = es })).0.file
  unfolding Switches.set_firewall
  set_firewall-IsSettled enabled (valid c) h c' e = ground (arith, h c refl)
  set_firewall-IsSettled enabled _ h c' e = ground arith

  pub set_firewall_mark-IsSettled :
      (value : ℕ) (f : File)
      → IsSettled f
      → IsSettled
          (Switches.set_firewall_mark env value
            (record { file = f; calls = cs; events = es })).0.file
  unfolding Switches.set_firewall_mark
  set_firewall_mark-IsSettled value (valid c) h c' e = ground (arith, h c refl)
  set_firewall_mark-IsSettled value _ h c' e = ground arith

  pub set_kill_switch-IsSettled :
      (enabled : Bool) (allowlist : Allowlist) (f : File)
      → IsSettled f
      → IsSettled
          (Switches.set_kill_switch env enabled allowlist
            (record { file = f; calls = cs; events = es })).0.file
  unfolding Switches.set_kill_switch
  set_kill_switch-IsSettled enabled allowlist (valid c) h c' e = ground (arith, h c refl)
  set_kill_switch-IsSettled enabled allowlist _ h c' e = ground arith

  pub set_routing-IsSettled :
      (enabled : Bool) (f : File)
      → IsSettled f
      → IsSettled
          (Switches.set_routing env enabled (record { file = f; calls = cs; events = es })).0.file
  unfolding Switches.set_routing
  set_routing-IsSettled enabled (valid c) h c' e = ground (arith, h c refl)
  set_routing-IsSettled enabled _ h c' e = ground arith

  pub set_ipv6-IsSettled :
      (enabled : Bool) (f : File)
      → IsSettled f
      → IsSettled
          (Switches.set_ipv6 env enabled (record { file = f; calls = cs; events = es })).0.file
  unfolding Switches.set_ipv6
  set_ipv6-IsSettled enabled (valid c) h c' e = ground (arith, h c refl)
  set_ipv6-IsSettled enabled _ h c' e = ground arith

  pub set_virtual_location-IsSettled :
      (enabled : Bool) (f : File)
      → IsSettled f
      → IsSettled
          (Switches.set_virtual_location env enabled
            (record { file = f; calls = cs; events = es })).0.file
  unfolding Switches.set_virtual_location
  set_virtual_location-IsSettled enabled (valid c) h c' e = ground (arith, h c refl)
  set_virtual_location-IsSettled enabled _ h c' e = ground arith

  pub set_analytics-IsSettled :
      (enabled : Bool) (f : File)
      → IsSettled f
      → IsSettled
          (Switches.set_analytics env enabled (record { file = f; calls = cs; events = es })).0.file
  unfolding Switches.set_analytics
  set_analytics-IsSettled enabled (valid c) h c' e = ground (arith, h c refl)
  set_analytics-IsSettled enabled _ h c' e = ground arith

  pub set_technology-IsSettled :
      (has_vpn : Bool) (technology : Technology) (f : File)
      → IsSettled f
      → IsSettled
          (Tunnel.set_technology env has_vpn technology
            (record { file = f; calls = cs; events = es })).0.file
  unfolding Tunnel.set_technology
  set_technology-IsSettled has_vpn technology (valid c) h c' e = ground (arith, h c refl)
  set_technology-IsSettled has_vpn technology _ h c' e = ground arith

  pub set_protocol-IsSettled :
      (protocol : Protocol) (f : File)
      → IsSettled f
      → IsSettled
          (Tunnel.set_protocol env protocol (record { file = f; calls = cs; events = es })).0.file
  unfolding Tunnel.set_protocol
  set_protocol-IsSettled protocol (valid c) h c' e = ground (arith, h c refl)
  set_protocol-IsSettled protocol _ h c' e = ground arith

  pub set_postquantum-IsSettled :
      (enabled : Bool) (f : File)
      → IsSettled f
      → IsSettled
          (Tunnel.set_postquantum env enabled (record { file = f; calls = cs; events = es })).0.file
  unfolding Tunnel.set_postquantum
  set_postquantum-IsSettled enabled (valid c) h c' e = ground (arith, h c refl)
  set_postquantum-IsSettled enabled _ h c' e = ground arith

  pub set_obfuscate-IsSettled :
      (servers : List Server) (enabled : Bool) (f : File)
      → IsSettled f
      → IsSettled
          (Tunnel.set_obfuscate env servers enabled
            (record { file = f; calls = cs; events = es })).0.file
  unfolding Tunnel.set_obfuscate
  set_obfuscate-IsSettled servers enabled (valid c) h c' e = ground (arith, h c refl)
  set_obfuscate-IsSettled servers enabled _ h c' e = ground arith
