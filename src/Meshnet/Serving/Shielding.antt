-- ===== src/Meshnet/Serving/Shielding.antt =====
-- The meshnet service and the kill switch of the networker behind it.
mod Steps
mod Methods
mod Peers
mod Invitations
mod Nicknames
mod Connection
mod Switching
use nordvpn_linux.Prelude.{
  Bool, not, List, [], ◌∷◌, String, ℤ, Option, none, some, if◌then◌else◌, sym, subst, Bool-cases,
  inl, inr, ◌==◌, string_eq,
}
use nordvpn_linux.Prelude.Action.{fail, Keeps, Keeps-if, Keeps-fail, Keeps->>, keeps_rules}
use nordvpn_linux.Config.Allowlist.{Allowlist}
use nordvpn_linux.Networker.{Combined, MachineMap, Peer, ServerData}
use nordvpn_linux.Networker.Operations.{Operation, perform}
use nordvpn_linux.Networker.Operations.KillSwitch.{IsShielded}
use nordvpn_linux.Networker.Operations.Shielding.{perform-IsShielded}
use nordvpn_linux.Meshnet.{
  Backend, PeerList, Server, Settings, Device, MachinePeer, Invitation, Handler, Reply, ApiError,
  Request, Permissions, config_failure, answered, networked, send, asking, requiring_login, loading,
  saving, log_out, or_log_out, with_device, if_mesh_on, on_networker,
}
use nordvpn_linux.Meshnet.Registration.{check_registration, requiring_registration}
use nordvpn_linux.Meshnet.Registration.Effect.{check_registration-netw, register_device_again-netw}
use nordvpn_linux.Meshnet.Peers.{
  on_list_error, or_not_found, listing, with_peer, update_peer_permissions,
}
use nordvpn_linux.Meshnet.Serving.{
  MeshRequest, PeerRequest, serve_peer, serve_mesh, serve_all, allow_incoming, of_peer,
  notify_new_transfer, remove_peer, invite, accept_invite, deny_invite, revoke_invite, get_invites,
  change_peer_nickname, change_machine_nickname, is_enabled, get_private_key, get_peers,
  start_meshnet, refresh_meshnet, connect_peer, enable_meshnet, disable_meshnet,
}
use nordvpn_linux.Meshnet.Serving.Shielding.Steps.{Shielded}
use nordvpn_linux.Meshnet.Serving.Shielding.Peers.{
  listing-Shielded, with_peer-Shielded, update_peer_permissions-Shielded, serve_peer-Shielded,
  notify_new_transfer-Shielded, remove_local-Shielded, remove_listed-Shielded, remove_peer-Shielded,
}
use nordvpn_linux.Meshnet.Serving.Shielding.Invitations.{
  enabled-Shielded, or_no_such-Shielded, with_invitation-Shielded, on_invite_error-Shielded,
  on_accept_error-Shielded, invite-Shielded, accept_invite-Shielded, deny_invite-Shielded,
  revoke_invite-Shielded, get_invites-Shielded,
}
use nordvpn_linux.Meshnet.Serving.Shielding.Nicknames.{
  check_domain-Shielded, check_nickname-Shielded, refreshed-Shielded, loaded_before-Shielded,
  or_unknown-Shielded, rename-Shielded, change_peer_nickname-Shielded, on_update_error-Shielded,
  change_machine_nickname-Shielded,
}
use nordvpn_linux.Meshnet.Serving.Shielding.Switching.{
  enable_meshnet-Shielded, disable_meshnet-Shielded,
}
use nordvpn_linux.Meshnet.Serving.Shielding.Connection.{
  tell-Shielded, is_enabled-Shielded, get_private_key-Shielded, list_registered-Shielded,
  list_own-Shielded, get_peers-Shielded, start_peer-Shielded, connect-Shielded,
  on_map_error-Shielded, start_meshnet-Shielded, refresh_meshnet-Shielded,
}

serve_mesh-Shielded : (b : Backend) (r : MeshRequest) → Shielded (serve_mesh b r)
unfolding serve_mesh
serve_mesh-Shielded b (of_peer r id) = serve_peer-Shielded b r id
serve_mesh-Shielded b (notify_new_transfer id name count transfer) =
    notify_new_transfer-Shielded b id name count transfer
serve_mesh-Shielded b (remove_peer id) = remove_peer-Shielded b id
serve_mesh-Shielded b (invite email allowed) = invite-Shielded b email allowed
serve_mesh-Shielded b (accept_invite email allowed) = accept_invite-Shielded b email allowed
serve_mesh-Shielded b (deny_invite email) = deny_invite-Shielded b email
serve_mesh-Shielded b (revoke_invite email) = revoke_invite-Shielded b email
serve_mesh-Shielded b get_invites = get_invites-Shielded b
serve_mesh-Shielded b (change_peer_nickname id nickname) =
    change_peer_nickname-Shielded b id nickname
serve_mesh-Shielded b (change_machine_nickname nickname) =
    change_machine_nickname-Shielded b nickname
serve_mesh-Shielded b is_enabled = is_enabled-Shielded b
serve_mesh-Shielded b get_private_key = get_private_key-Shielded b
serve_mesh-Shielded b get_peers = get_peers-Shielded b
serve_mesh-Shielded b start_meshnet = start_meshnet-Shielded b
serve_mesh-Shielded b refresh_meshnet = refresh_meshnet-Shielded b
serve_mesh-Shielded b (connect_peer connecting id) = connect-Shielded b connecting id
serve_mesh-Shielded b (enable_meshnet uid has_pid) = enable_meshnet-Shielded b uid has_pid
serve_mesh-Shielded b disable_meshnet = disable_meshnet-Shielded b

-- Any sequence of requests to the meshnet service, whatever the API, the settings file and the system
-- answer, keeps the networker behind it such that the network is marked as blocked while the kill switch
-- is set.
pub serve_all-IsShielded :
    (b : Backend) (rs : List MeshRequest) (s : Server)
    → IsShielded s.netw
    → IsShielded (serve_all b rs s).netw
unfolding serve_all
serve_all-IsShielded b [] s h = h
serve_all-IsShielded b (r ∷ rs) s h =
    serve_all-IsShielded b rs (serve_mesh b r s).1 ((serve_mesh-Shielded b r).at s h)
