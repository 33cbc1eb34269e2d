-- ===== src/Meshnet/Serving/Telling/Changes.antt =====
-- What a request about a peer may tell the API.
use nordvpn_linux.Prelude.{
  Bool, true, false, not, List, ◌∷◌, String, some, find, string_eq, ◌==◌, ◌≡◌, ◌≢◌, refl, ap, arith,
}
use nordvpn_linux.Meshnet.{
  Backend, MachinePeer, PeerUpdate, Request, configure, new_peer_update_request,
}
use nordvpn_linux.Meshnet.Serving.{
  PeerRequest, allow_incoming, deny_incoming, allow_routing, deny_routing, allow_local_network,
  deny_local_network, allow_fileshare, deny_fileshare, enable_automatic_fileshare,
  disable_automatic_fileshare,
}

-- the permission that a request is about, set to what it asks for
unfoldable pub change_of : PeerRequest → MachinePeer → MachinePeer
change_of allow_incoming p = record p { do_i_allow_inbound = true }
change_of deny_incoming p = record p { do_i_allow_inbound = false }
change_of allow_routing p = record p { do_i_allow_routing = true }
change_of deny_routing p = record p { do_i_allow_routing = false }
change_of allow_local_network p = record p { do_i_allow_local_network = true }
change_of deny_local_network p = record p { do_i_allow_local_network = false }
change_of allow_fileshare p = record p { do_i_allow_fileshare = true }
change_of deny_fileshare p = record p { do_i_allow_fileshare = false }
change_of enable_automatic_fileshare p = record p { always_accept_files = true }
change_of disable_automatic_fileshare p = record p { always_accept_files = false }

-- A request to the API about a peer, after the requests `before`: the peer is the one that was listed with
-- the identifier, and of its permissions the one that is asked for is changed, if it has another value.
abbrev pub Fits : Backend → PeerRequest → String → List Request → Request → Type 0
Fits b r id before (configure token device peer update) =
    (p : MachinePeer) × (find (λ q. q.id == id) (b.peers before) ≡ some p)
    × (peer ≡ p.id)
    × (update ≡ new_peer_update_request (change_of r p))
    × (update ≢ new_peer_update_request p)
Fits b r id before _ = Unit {0}

-- the requests of a server, the latest first, since it had `before`
pub data Told (b : Backend) (r : PeerRequest) (id : String) (before : List Request)
    : List Request → Type 0 where
  nothing : Told b r id before before
  tell :
      (q : Request) (qs : List Request)
      → Fits b r id qs q
      → Told b r id before qs
      → Told b r id before (q ∷ qs)

-- the value that a request asks for is the present one
unfoldable pub has_already : PeerRequest → MachinePeer → Bool
has_already allow_incoming p = p.do_i_allow_inbound
has_already deny_incoming p = not p.do_i_allow_inbound
has_already allow_routing p = p.do_i_allow_routing
has_already deny_routing p = not p.do_i_allow_routing
has_already allow_local_network p = p.do_i_allow_local_network
has_already deny_local_network p = not p.do_i_allow_local_network
has_already allow_fileshare p = p.do_i_allow_fileshare
has_already deny_fileshare p = not p.do_i_allow_fileshare
has_already enable_automatic_fileshare p = p.always_accept_files
has_already disable_automatic_fileshare p = not p.always_accept_files

pub change_of-ne :
    (r : PeerRequest) (p : MachinePeer)
    → has_already r p ≡ false
    → new_peer_update_request (change_of r p) ≢ new_peer_update_request p
unfolding has_already change_of new_peer_update_request
change_of-ne allow_incoming p h e = ground (arith, ap (λ (u : PeerUpdate). u.do_i_allow_inbound) e)
change_of-ne r p h e = ground arith

pub change_of-id : (r : PeerRequest) (p : MachinePeer) → (change_of r p).id ≡ p.id
unfolding change_of
change_of-id allow_incoming p = refl
change_of-id r p = refl
