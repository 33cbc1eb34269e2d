-- ===== src/Daemon/Consistency/Others.antt =====
-- Every other request keeps the saved configuration consistent.
use nordvpn_linux.Prelude.{ℤ, Bool, false, bool_eq, nat_eq, List, String, ◌≡◌, refl, arith}
use nordvpn_linux.Config.Allowlist.{Allowlist}
use nordvpn_linux.Config.Manager.{File, valid}
use nordvpn_linux.Daemon.State.{Env, Call, Event}
use nordvpn_linux.Daemon.Subnets.{AddressParser}
use nordvpn_linux.Daemon.Nameservers
use nordvpn_linux.Daemon.Allowlisting
use nordvpn_linux.Daemon.Allowlisting.{AllowlistRequest}
use nordvpn_linux.Daemon.Users
use nordvpn_linux.Daemon.Meshnet
use nordvpn_linux.Daemon.Meshnet.{MeshEnv}
use nordvpn_linux.Daemon.Consistency.{IsSettled}

-- `env` reads the file without a fault; `cs` and `es` are the calls and events so far
module _ (env : Env) (steady : env.load_io.read_fails ≡ false) (cs : List Call)
    (es : List Event) where
  pub set_dns-IsSettled :
      (parser : AddressParser) (defaults : Bool → Bool → List String) (is6 : Bool)
      (dns : List String) (f : File)
      → IsSettled f
      → IsSettled
          (Nameservers.set_dns env parser defaults is6 dns
            (record { file = f; calls = cs; events = es })).0.file
  unfolding Nameservers.set_dns
  set_dns-IsSettled parser defaults is6 dns (valid c) h c' e = ground (arith, h c refl)
  set_dns-IsSettled parser defaults is6 dns _ h c' e = ground arith

  pub set_threat_protection_lite-IsSettled :
      (defaults : Bool → Bool → List String) (enabled : Bool) (f : File)
      → IsSettled f
      → IsSettled
          (Nameservers.set_threat_protection_lite env defaults enabled
            (record { file = f; calls = cs; events = es })).0.file
  unfolding Nameservers.set_threat_protection_lite
  set_threat_protection_lite-IsSettled defaults enabled (valid c) h c' e = ground (arith, h c refl)
  set_threat_protection_lite-IsSettled defaults enabled _ h c' e = ground arith

  pub handle_new_allowlist-IsSettled :
      (allowlist : Allowlist) (f : File)
      → IsSettled f
      → IsSettled
          (Allowlisting.handle_new_allowlist env allowlist
            (record { file = f; calls = cs; events = es })).0.file
  unfolding Allowlisting.handle_new_allowlist
  handle_new_allowlist-IsSettled allowlist (valid c) h c' e = ground (arith, h c refl)
  handle_new_allowlist-IsSettled allowlist _ h c' e = ground arith

  pub set_lan_discovery-IsSettled :
      (parser : AddressParser) (enabled : Bool) (f : File)
      → IsSettled f
      → IsSettled
          (Allowlisting.set_lan_discovery env parser enabled
            (record { file = f; calls = cs; events = es })).0.file
  unfolding Allowlisting.set_lan_discovery
  set_lan_discovery-IsSettled parser enabled (valid c) h c' e = ground (arith, h c refl)
  set_lan_discovery-IsSettled parser enabled _ h c' e = ground arith

  pub set_notify-IsSettled :
      (uid : ℤ) (enabled : Bool) (f : File)
      → IsSettled f
      → IsSettled
          (Users.set_notify env uid enabled (record { file = f; calls = cs; events = es })).0.file
  unfolding Users.set_notify
  set_notify-IsSettled uid enabled (valid c) h c' e = ground (arith, h c refl)
  set_notify-IsSettled uid enabled _ h c' e = ground arith

  pub set_tray-IsSettled :
      (uid : ℤ) (enabled : Bool) (f : File)
      → IsSettled f
      → IsSettled
          (Users.set_tray env uid enabled (record { file = f; calls = cs; events = es })).0.file
  unfolding Users.set_tray
  set_tray-IsSettled uid enabled (valid c) h c' e = ground (arith, h c refl)
  set_tray-IsSettled uid enabled _ h c' e = ground arith

  pub enable_meshnet-IsSettled :
      (m : MeshEnv) (f : File)
      → IsSettled f
      → IsSettled
          (Meshnet.enable_meshnet env m (record { file = f; calls = cs; events = es })).0.file
  unfolding Meshnet.enable_meshnet
  enable_meshnet-IsSettled m (valid c) h c' e = ground (arith, h c refl)
  enable_meshnet-IsSettled m _ h c' e = ground arith

  pub disable_meshnet-IsSettled :
      (peer_connected : Bool) (f : File)
      → IsSettled f
      → IsSettled
          (Meshnet.disable_meshnet env peer_connected
            (record { file = f; calls = cs; events = es })).0.file
  unfolding Meshnet.disable_meshnet
  disable_meshnet-IsSettled peer_connected (valid c) h c' e = ground (arith, h c refl)
  disable_meshnet-IsSettled peer_connected _ h c' e = ground arith
