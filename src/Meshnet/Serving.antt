-- ===== src/Meshnet/Serving.antt =====
-- The requests that the meshnet service answers, as one type.
pub mod Login
pub mod Shielding
pub mod Panics
pub mod Telling
use nordvpn_linux.Prelude.{ℤ, Bool, true, false, List, [], ◌∷◌, String}
use nordvpn_linux.Meshnet.{Backend, Server, Permissions, Handler}
use nordvpn_linux.Meshnet.Peers
use nordvpn_linux.Meshnet.Invitations
use nordvpn_linux.Meshnet.Nicknames
use nordvpn_linux.Meshnet.Listing
use nordvpn_linux.Meshnet.Connection
use nordvpn_linux.Meshnet.Switching

-- the requests about one peer
pub data PeerRequest : Type 0 where
  allow_incoming deny_incoming allow_routing deny_routing : PeerRequest
  allow_local_network deny_local_network allow_fileshare deny_fileshare : PeerRequest
  enable_automatic_fileshare disable_automatic_fileshare : PeerRequest

pub data MeshRequest : Type 0 where
  of_peer : PeerRequest → String → MeshRequest
  notify_new_transfer : String → String → ℤ → String → MeshRequest
  remove_peer : String → MeshRequest
  invite accept_invite : String → Permissions → MeshRequest
  deny_invite revoke_invite : String → MeshRequest
  get_invites : MeshRequest
  change_peer_nickname : String → String → MeshRequest
  change_machine_nickname : String → MeshRequest
  is_enabled get_private_key get_peers : MeshRequest
  start_meshnet refresh_meshnet : MeshRequest
  -- with whether another connection is under way
  connect_peer : Bool → String → MeshRequest
  -- with the user of the caller, and whether its process is known
  enable_meshnet : ℤ → Bool → MeshRequest
  disable_meshnet : MeshRequest

unfoldable pub serve_peer : Backend → PeerRequest → String → Handler
serve_peer b allow_incoming id = Peers.allow_incoming b id
serve_peer b deny_incoming id = Peers.deny_incoming b id
serve_peer b allow_routing id = Peers.allow_routing b id
serve_peer b deny_routing id = Peers.deny_routing b id
serve_peer b allow_local_network id = Peers.allow_local_network b id
serve_peer b deny_local_network id = Peers.deny_local_network b id
serve_peer b allow_fileshare id = Peers.allow_fileshare b id
serve_peer b deny_fileshare id = Peers.deny_fileshare b id
serve_peer b enable_automatic_fileshare id = Peers.enable_automatic_fileshare b id
serve_peer b disable_automatic_fileshare id = Peers.disable_automatic_fileshare b id

unfoldable pub serve_mesh : Backend → MeshRequest → Handler
unfolding serve_peer
serve_mesh b (of_peer r id) = serve_peer b r id
serve_mesh b (notify_new_transfer id name count transfer) =
    Peers.notify_new_transfer b id name count transfer
serve_mesh b (remove_peer id) = Peers.remove_peer b id
serve_mesh b (invite email allowed) = Invitations.invite b email allowed
serve_mesh b (accept_invite email allowed) = Invitations.accept_invite b email allowed
serve_mesh b (deny_invite email) = Invitations.deny_invite b email
serve_mesh b (revoke_invite email) = Invitations.revoke_invite b email
serve_mesh b get_invites = Invitations.get_invites b
serve_mesh b (change_peer_nickname id nickname) = Nicknames.change_peer_nickname b id nickname
serve_mesh b (change_machine_nickname nickname) = Nicknames.change_machine_nickname b nickname
serve_mesh b is_enabled = Listing.is_enabled b
serve_mesh b get_private_key = Listing.get_private_key b
serve_mesh b get_peers = Listing.get_peers b
serve_mesh b start_meshnet = Connection.start_meshnet b
serve_mesh b refresh_meshnet = Connection.refresh_meshnet b
serve_mesh b (connect_peer connecting id) = Connection.connect b connecting id
serve_mesh b (enable_meshnet uid has_pid) = Switching.enable_meshnet b uid has_pid
serve_mesh b disable_meshnet = Switching.disable_meshnet b

-- one request after another, whatever the replies
unfoldable pub serve_all : Backend → List MeshRequest → Server → Server
serve_all b [] s = s
serve_all b (r ∷ rs) s = serve_all b rs (serve_mesh b r s).1
