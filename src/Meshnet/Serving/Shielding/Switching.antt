-- ===== src/Meshnet/Serving/Shielding/Switching.antt =====
-- Turning meshnet on and off keeps the networker shielded.
use nordvpn_linux.Prelude.{Bool, ℤ, Option, none, some, string_eq}
use nordvpn_linux.Networker
use nordvpn_linux.Networker.{Combined, MachineMap}
use nordvpn_linux.Networker.Mesh
use nordvpn_linux.Networker.Operations.KillSwitch.{IsShielded}
use nordvpn_linux.Meshnet.{Backend, Server, Settings, Device}
use nordvpn_linux.Meshnet.Switching.{after_mesh, setting_mesh, enable_meshnet, disable_meshnet}
use nordvpn_linux.Meshnet.Serving.Shielding.Steps.{Shielded, shielded_rules, registering-Shielded}
use nordvpn_linux.Meshnet.Serving.Shielding.Methods.{safe_rules, net_set_mesh-Safe}

module _ (b : Backend) where
  setting_mesh-Shielded :
      (cfg : Settings) (device : Device) (peers : MachineMap)
      → Shielded (setting_mesh b cfg device peers)
  unfolding setting_mesh
  setting_mesh-Shielded cfg device peers = record {
    at = λ s h.
        go (Mesh.set_mesh b.world peers device.address cfg.private_key s.netw) s
          ((net_set_mesh-Safe b peers device.address cfg.private_key).at s.netw h);
  }
    where
      go :
          (r : Option Networker.Error × Combined) (s : Server)
          → IsShielded r.1
          → IsShielded (after_mesh b r s).1.netw
      go (none, n) s h = h
      go (some e, n) s h = h

  pub enable_meshnet-Shielded : (uid : ℤ) (has_pid : Bool) → Shielded (enable_meshnet b uid has_pid)
  unfolding enable_meshnet
  enable_meshnet-Shielded uid has_pid =
      search (shielded_rules, registering-Shielded, setting_mesh-Shielded) depth 18 fits 9000

  pub disable_meshnet-Shielded : Shielded (disable_meshnet b)
  unfolding disable_meshnet
  disable_meshnet-Shielded = search (shielded_rules, safe_rules) depth 18 fits 9000
