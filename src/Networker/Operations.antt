-- ===== src/Networker/Operations.antt =====
-- The methods that the daemon calls on the networker, as one type.
pub mod Flags
pub mod KillSwitch
pub mod Invariant
pub mod Shielding
pub mod Disconnecting
pub mod Starting
pub mod Locking
pub mod Restarting
use nordvpn_linux.Prelude.{Bool, List, [], ◌∷◌, String}
use nordvpn_linux.Prelude.Action.{◌>>◌, succeed}
use nordvpn_linux.Config.{Technology}
use nordvpn_linux.Config.Allowlist.{Allowlist}
use nordvpn_linux.Networker.{World, Combined, Method, ServerData, Peer, MachineMap}
use nordvpn_linux.Networker.Rules
use nordvpn_linux.Networker.Network
use nordvpn_linux.Networker.Mesh
use nordvpn_linux.Networker.Tunnel
use nordvpn_linux.Networker.Reconnect

pub data Operation : Type 0 where
  connect : String → ServerData → Allowlist → List String → Bool → Operation
  disconnect refresh_vpn unset_firewall unset_kill_switch : Operation
  set_kill_switch set_allowlist : Allowlist → Operation
  use_dns : List String → Operation
  drop_dns permit_ipv6 deny_ipv6 : Operation
  enable_firewall disable_firewall enable_routing disable_routing : Operation
  set_vpn : Technology → Operation
  set_lan_discovery : Bool → Operation
  set_mesh : MachineMap → String → String → Operation
  refresh_mesh : MachineMap → Operation
  turn_mesh_off : Operation
  allow_incoming : String → String → Bool → Operation
  block_incoming allow_fileshare block_fileshare : String → String → Operation
  reset_routing : Peer → List Peer → Operation

unfoldable pub perform : World → Operation → Method
perform w (connect creds server allowlist nameservers local) =
    Tunnel.connect w creds server allowlist nameservers local
perform w disconnect = Tunnel.disconnect w
perform w refresh_vpn = Reconnect.refresh_vpn w
perform w unset_firewall = Network.unset_firewall w
perform w unset_kill_switch = Network.unset_kill_switch w
perform w (set_kill_switch allowlist) = Network.set_kill_switch w allowlist
perform w (set_allowlist allowlist) = Network.set_allowlist w allowlist
perform w (use_dns nameservers) = Tunnel.use_dns w nameservers
perform w drop_dns = Tunnel.drop_dns w
perform w permit_ipv6 = Tunnel.permit_ipv6 w
perform w deny_ipv6 = Tunnel.deny_ipv6 w
perform w enable_firewall = Network.enable_firewall w
perform w disable_firewall = Network.disable_firewall w
perform w enable_routing = Tunnel.enable_routing w
perform w disable_routing = Tunnel.disable_routing w
perform w (set_vpn v) = Tunnel.set_vpn w v
perform w (set_lan_discovery enabled) = Mesh.set_lan_discovery w enabled
perform w (set_mesh cfg self key) = Mesh.set_mesh w cfg self key
perform w (refresh_mesh cfg) = Mesh.refresh w cfg
perform w turn_mesh_off = Mesh.turn_mesh_off w
perform w (allow_incoming key address lan) = Rules.allow_incoming w key address lan
perform w (block_incoming key address) = Rules.block_incoming w key address
perform w (allow_fileshare key address) = Rules.allow_fileshare w key address
perform w (block_fileshare key address) = Rules.block_fileshare w key address
perform w (reset_routing peer peers) = Mesh.reset_routing w peer peers

-- one operation after another, whatever each returns
unfoldable pub perform_all : World → List Operation → Combined → Combined
perform_all w [] n = n
perform_all w (op ∷ ops) n = perform_all w ops (perform w op n).1
