-- ===== src/Networker/Operations/Locking.antt =====
-- What the results of the kill switch's methods mean.
use nordvpn_linux.Prelude.{true, none, ◌≡◌, arith}
use nordvpn_linux.Prelude.Action.{succeed, update, reading, ◌>>◌}
use nordvpn_linux.Config.Allowlist.{Allowlist}
use nordvpn_linux.Networker.{World, Combined}
use nordvpn_linux.Networker.Network.{set_kill_switch}
use nordvpn_linux.Networker.Operations.KillSwitch.{set_network-Ensures}

-- Setting the kill switch with success leaves both the kill switch and the blocked network set.
pub set_kill_switch-is_network_set :
    (w : World) (allowlist : Allowlist) (n : Combined)
    → let r = set_kill_switch w allowlist n in
      r.0 ≡ none → (r.1.is_kill_switch_set ≡ true) × (r.1.is_network_set ≡ true)
unfolding set_kill_switch reading update succeed ◌>>◌
set_kill_switch-is_network_set w allowlist n h =
    ground (arith, (set_network-Ensures w allowlist).at n)
