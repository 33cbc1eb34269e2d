-- ===== src/Meshnet/Serving/Shielding/Methods.antt =====
-- The methods of the networker that the service calls keep it shielded.
use nordvpn_linux.Prelude.{Bool, List, String, string_eq}
use nordvpn_linux.Config.Allowlist.{Allowlist}
use nordvpn_linux.Networker.{MachineMap, Peer, ServerData}
use nordvpn_linux.Networker.Rules
use nordvpn_linux.Networker.Mesh
use nordvpn_linux.Networker.Tunnel
use nordvpn_linux.Networker.Operations
use nordvpn_linux.Networker.Operations.{Operation, perform}
use nordvpn_linux.Networker.Operations.Shielding.{perform-IsShielded}
use nordvpn_linux.Meshnet.{Backend}
use nordvpn_linux.Meshnet.Serving.Shielding.Steps.{Safe}

module _ (b : Backend) where
  pub net_allow_incoming-Safe :
      (key address : String) (lan : Bool) → Safe (Rules.allow_incoming b.world key address lan)
  unfolding perform
  net_allow_incoming-Safe key address lan =
      perform-IsShielded b.world (Operations.allow_incoming key address lan)

  pub net_block_incoming-Safe :
      (key address : String) → Safe (Rules.block_incoming b.world key address)
  unfolding perform
  net_block_incoming-Safe key address =
      perform-IsShielded b.world (Operations.block_incoming key address)

  pub net_allow_fileshare-Safe :
      (key address : String) → Safe (Rules.allow_fileshare b.world key address)
  unfolding perform
  net_allow_fileshare-Safe key address =
      perform-IsShielded b.world (Operations.allow_fileshare key address)

  pub net_block_fileshare-Safe :
      (key address : String) → Safe (Rules.block_fileshare b.world key address)
  unfolding perform
  net_block_fileshare-Safe key address =
      perform-IsShielded b.world (Operations.block_fileshare key address)

  pub net_reset_routing-Safe : (p : Peer) (ps : List Peer) → Safe (Mesh.reset_routing b.world p ps)
  unfolding perform
  net_reset_routing-Safe p ps = perform-IsShielded b.world (Operations.reset_routing p ps)

  pub net_refresh-Safe : (cfg : MachineMap) → Safe (Mesh.refresh b.world cfg)
  unfolding perform
  net_refresh-Safe cfg = perform-IsShielded b.world (Operations.refresh_mesh cfg)

  pub net_set_mesh-Safe :
      (cfg : MachineMap) (self key : String) → Safe (Mesh.set_mesh b.world cfg self key)
  unfolding perform
  net_set_mesh-Safe cfg self key = perform-IsShielded b.world (Operations.set_mesh cfg self key)

  pub net_disconnect-Safe : Safe (Tunnel.disconnect b.world)
  unfolding perform
  net_disconnect-Safe = perform-IsShielded b.world Operations.disconnect

  pub net_turn_mesh_off-Safe : Safe (Mesh.turn_mesh_off b.world)
  unfolding perform
  net_turn_mesh_off-Safe = perform-IsShielded b.world Operations.turn_mesh_off

  pub net_connect-Safe :
      (key : String) (server : ServerData) (a : Allowlist) (ns : List String) (l : Bool)
      → Safe (Tunnel.connect b.world key server a ns l)
  unfolding perform
  net_connect-Safe key server a ns l =
      perform-IsShielded b.world (Operations.connect key server a ns l)

pub ruleset safe_rules = (
  net_allow_incoming-Safe, net_block_incoming-Safe, net_allow_fileshare-Safe,
  net_block_fileshare-Safe, net_reset_routing-Safe, net_refresh-Safe, net_set_mesh-Safe,
  net_connect-Safe, net_disconnect-Safe, net_turn_mesh_off-Safe,
)
