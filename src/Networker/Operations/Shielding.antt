-- ===== src/Networker/Operations/Shielding.antt =====
-- Whatever the daemon asks of the networker, the kill switch implies the blocked network.
use nordvpn_linux.Prelude.{Bool, true, false, List, [], ◌∷◌, refl}
use nordvpn_linux.Prelude.Action.{Keeps}
use nordvpn_linux.Firewall.Service.{enable, disable}
use nordvpn_linux.Networker.{World, Combined}
use nordvpn_linux.Networker.Network
use nordvpn_linux.Networker.Operations.{
  Operation, connect, disconnect, refresh_vpn, unset_firewall, unset_kill_switch, set_kill_switch,
  set_allowlist, use_dns, drop_dns, permit_ipv6, deny_ipv6, enable_routing, disable_routing,
  set_vpn, set_lan_discovery, set_mesh, refresh_mesh, turn_mesh_off, allow_incoming, block_incoming,
  allow_fileshare, block_fileshare, reset_routing, enable_firewall, disable_firewall, perform,
  perform_all,
}
use nordvpn_linux.Networker.Operations.Flags
use nordvpn_linux.Networker.Operations.KillSwitch
use nordvpn_linux.Networker.Operations.KillSwitch.{FirstTwo, Implies, IsShielded}
use nordvpn_linux.Networker.Operations.Invariant.{refresh_vpn-Safe}

blocked : (k : Bool) → Implies k true
blocked k e = refl

unlocked : (b : Bool) → Implies false b
unlocked b e = cc

pub perform-IsShielded : (w : World) (op : Operation) → Keeps IsShielded (perform w op)
unfolding perform Network.enable_firewall Network.disable_firewall
perform-IsShielded w (connect creds server allowlist nameservers local) =
    KillSwitch.connect-Safe Implies blocked unlocked w creds server allowlist nameservers local
perform-IsShielded w disconnect = KillSwitch.disconnect-Safe Implies blocked unlocked w
perform-IsShielded w refresh_vpn = refresh_vpn-Safe Implies blocked unlocked w
perform-IsShielded w unset_firewall = KillSwitch.unset_firewall-Safe Implies blocked unlocked w
perform-IsShielded w unset_kill_switch =
    KillSwitch.unset_kill_switch-Safe Implies blocked unlocked w
perform-IsShielded w (set_kill_switch allowlist) =
    KillSwitch.set_kill_switch-Safe Implies blocked unlocked w allowlist
perform-IsShielded w (set_allowlist allowlist) =
    Flags.set_allowlist-Kept (FirstTwo Implies) w allowlist
perform-IsShielded w (use_dns nameservers) = Flags.use_dns-Kept (FirstTwo Implies) w nameservers
perform-IsShielded w drop_dns = Flags.drop_dns-Kept (FirstTwo Implies) w
perform-IsShielded w permit_ipv6 = Flags.permit_ipv6-Kept (FirstTwo Implies) w
perform-IsShielded w deny_ipv6 = Flags.deny_ipv6-Kept (FirstTwo Implies) w
perform-IsShielded w enable_firewall = Flags.on_firewall-Kept (FirstTwo Implies) (enable w.agent)
perform-IsShielded w disable_firewall = Flags.on_firewall-Kept (FirstTwo Implies) (disable w.agent)
perform-IsShielded w enable_routing = Flags.enable_routing-Kept (FirstTwo Implies) w
perform-IsShielded w disable_routing = Flags.disable_routing-Kept (FirstTwo Implies) w
perform-IsShielded w (set_vpn v) = KillSwitch.set_vpn-Safe Implies blocked unlocked w v
perform-IsShielded w (set_lan_discovery enabled) =
    Flags.set_lan_discovery-Kept (FirstTwo Implies) w enabled
perform-IsShielded w (set_mesh cfg self key) =
    Flags.set_mesh-Kept (FirstTwo Implies) (λ k b v h. h) w cfg self key
perform-IsShielded w (refresh_mesh cfg) = Flags.refresh-Kept (FirstTwo Implies) w cfg
perform-IsShielded w turn_mesh_off = Flags.turn_mesh_off-Kept (FirstTwo Implies) w
perform-IsShielded w (allow_incoming key address lan) =
    Flags.allow_incoming-Kept (FirstTwo Implies) w key address lan
perform-IsShielded w (block_incoming key address) =
    Flags.block_incoming-Kept (FirstTwo Implies) w key address
perform-IsShielded w (allow_fileshare key address) =
    Flags.allow_fileshare-Kept (FirstTwo Implies) w key address
perform-IsShielded w (block_fileshare key address) =
    Flags.block_fileshare-Kept (FirstTwo Implies) w key address
perform-IsShielded w (reset_routing peer peers) =
    Flags.reset_routing-Kept (FirstTwo Implies) w peer peers

-- Any sequence of the networker's methods, whatever each of them returns and whatever the system answers,
-- keeps this: while the kill switch is set, the network is marked as blocked.
pub perform_all-IsShielded :
    (w : World) (ops : List Operation) (n : Combined)
    → IsShielded n
    → IsShielded (perform_all w ops n)
unfolding perform_all
perform_all-IsShielded w [] n h = h
perform_all-IsShielded w (op ∷ ops) n h =
    perform_all-IsShielded w ops (perform w op n).1 ((perform-IsShielded w op).at n h)
