-- ===== src/Meshnet/Serving/Login.antt =====
-- Without a login the service does nothing.
use nordvpn_linux.Prelude.{Bool, true, false, not, ◌∷◌, String, some, ◌≡◌}
use nordvpn_linux.Prelude.Action.{fail, ◌>>◌}
use nordvpn_linux.Meshnet.{
  Backend, Server, Handler, ApiError, not_logged_in, check_login, requiring_login, asking, send,
}
use nordvpn_linux.Meshnet.Peers
use nordvpn_linux.Meshnet.Invitations
use nordvpn_linux.Meshnet.Nicknames
use nordvpn_linux.Meshnet.Listing
use nordvpn_linux.Meshnet.Connection
use nordvpn_linux.Meshnet.Switching
use nordvpn_linux.Meshnet.Serving.{
  MeshRequest, PeerRequest, serve_mesh, serve_peer, allow_incoming, of_peer, connect_peer,
  disable_meshnet,
}

login_first :
    (b : Backend) (k : Handler) (s : Server) (e : ApiError)
    → b.answers s.requests check_login ≡ some e
    → (requiring_login b >> k) s
      ≡ (some not_logged_in, record s { requests = check_login ∷ s.requests })
unfolding requiring_login asking send fail ◌>>◌
login_first b k s e h = simp (h)

serve_peer-not_logged_in :
    (b : Backend) (r : PeerRequest) (id : String) (s : Server) (e : ApiError)
    → b.answers s.requests check_login ≡ some e
    → serve_peer b r id s ≡ (some not_logged_in, record s { requests = check_login ∷ s.requests })
unfolding serve_peer Peers.allow_incoming Peers.deny_incoming Peers.allow_routing Peers.deny_routing
    Peers.allow_local_network Peers.deny_local_network Peers.allow_fileshare Peers.deny_fileshare
    Peers.enable_automatic_fileshare Peers.disable_automatic_fileshare
serve_peer-not_logged_in b allow_incoming id s e h = login_first b _ s e h
serve_peer-not_logged_in b r id s e h = login_first b _ s e h

-- the requests whose handler asks for the login first
abbrev pub needs_login : MeshRequest → Bool
needs_login disable_meshnet = false
needs_login (connect_peer connecting id) = not connecting
needs_login _ = true

-- Without a login, every request to the service is answered with that, except DisableMeshnet and except
-- Connect while another connection is under way. Once the login was asked for nothing else happens: no
-- other request is sent, and neither the settings nor the networker change.
pub serve_mesh-not_logged_in :
    (b : Backend) (r : MeshRequest) (s : Server) (e : ApiError)
    → needs_login r ≡ true
    → b.answers s.requests check_login ≡ some e
    → serve_mesh b r s ≡ (some not_logged_in, record s { requests = check_login ∷ s.requests })
unfolding serve_mesh Peers.notify_new_transfer Peers.remove_peer Invitations.invite
    Invitations.accept_invite Invitations.deny_invite Invitations.revoke_invite
    Invitations.get_invites Nicknames.change_peer_nickname Nicknames.change_machine_nickname
    Listing.is_enabled Listing.get_private_key Listing.get_peers Connection.start_meshnet
    Connection.refresh_meshnet Connection.connect Connection.connect_peer Switching.enable_meshnet
serve_mesh-not_logged_in b (of_peer r id) s e n h = serve_peer-not_logged_in b r id s e h
serve_mesh-not_logged_in b disable_meshnet s e n h = cc
serve_mesh-not_logged_in b (connect_peer true id) s e n h = cc
serve_mesh-not_logged_in b (connect_peer false id) s e n h = login_first b _ s e h
serve_mesh-not_logged_in b r s e n h = login_first b _ s e h
