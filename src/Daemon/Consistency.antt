-- ===== src/Daemon/Consistency.antt =====
-- What every settings request keeps true of the saved configuration.
pub mod Steps
pub mod Others
pub mod Compound
pub mod Serving
use nordvpn_linux.Prelude.{
  ℕ, Bool, true, false, not, ◌&&◌, ◌==◌, bool_eq, nat_eq, if◌then◌else◌, Option, none, some, List,
  [], ◌≡◌, refl, arith,
}
use nordvpn_linux.Config.{Config, Technology, nordlynx, Protocol, udp}
use nordvpn_linux.Config.Allowlist.{Allowlist}
use nordvpn_linux.Config.Manager.{File, absent, corrupt, mistyped, valid, Io}
use nordvpn_linux.Daemon.State.{Env, Daemon, Call, Event, Reply}
use nordvpn_linux.Daemon.Switches
use nordvpn_linux.Daemon.Tunnel

-- The settings that exclude or need one another.
pub record IsConsistent (c : Config) : Type 0 where
  pub kill_switch_firewall : c.kill_switch ≡ true → c.firewall ≡ true
  pub mesh_postquantum : c.mesh ≡ true → c.auto_connect_data.postquantum_vpn ≡ false
  pub postquantum_nordlynx : c.auto_connect_data.postquantum_vpn ≡ true → c.technology ≡ nordlynx
  pub nordlynx_udp : c.technology ≡ nordlynx → c.auto_connect_data.protocol ≡ udp

-- the configuration of a readable file is consistent
abbrev pub IsSettled : File → Type 0
IsSettled f = (c : Config) → f ≡ valid c → IsConsistent c
