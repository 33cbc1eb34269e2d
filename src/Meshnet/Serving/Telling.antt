-- ===== src/Meshnet/Serving/Telling.antt =====
-- What a request about a peer tells the API.
pub mod Changes
mod Steps
use nordvpn_linux.Prelude.{
  Bool, true, false, not, ◌&&◌, List, [], ◌∷◌, String, Option, none, some, find, if◌then◌else◌,
  string_eq, ◌==◌, ◌≡◌, ◌≢◌, refl, ap, arith, Bool-cases, inl, inr,
}
use nordvpn_linux.Prelude.Action.{
  Keeps, Keeps-if, Keeps-fail, Keeps-succeed, Keeps-reading, Keeps->>, keeps_rules, succeed, fail,
  reading, ◌>>◌, when,
}
use nordvpn_linux.Networker
use nordvpn_linux.Networker.Rules
use nordvpn_linux.Networker.{Combined}
use nordvpn_linux.Meshnet.{
  Backend, Server, Settings, Device, MachinePeer, PeerUpdate, Handler, Reply, ApiError, Request,
  configure, new_peer_update_request, answered, networked, send, asking, requiring_login, loading,
  saving, log_out, with_device, if_mesh_on, on_networker, list_peers,
}
use nordvpn_linux.Meshnet.Registration.{check_registration, requiring_registration}
use nordvpn_linux.Meshnet.Registration.Keeping.{is_configure, check_registration-Keeps}
use nordvpn_linux.Meshnet.Peers
use nordvpn_linux.Meshnet.Peers.{
  on_list_error, or_not_found, listing, with_peer, update_peer_permissions, at_address,
}
use nordvpn_linux.Meshnet.Serving.{
  PeerRequest, serve_peer, allow_incoming, deny_incoming, allow_routing, deny_routing,
  allow_local_network, deny_local_network, allow_fileshare, deny_fileshare,
  enable_automatic_fileshare, disable_automatic_fileshare,
}
use nordvpn_linux.Meshnet.Serving.Telling.Changes.{
  change_of, Fits, Told, nothing, tell, has_already, change_of-ne, change_of-id,
}
use nordvpn_linux.Meshnet.Serving.Telling.Steps.{Tells, with_peer-Tells, on_networker-Tells}

module _ (b : Backend) (r : PeerRequest) (id : String) (before : List Request) where
  -- the one request that tells a change, whatever it is answered with
  update_peer_permissions-Told :
      (token device : String) (p : MachinePeer) (s : Server)
      → find (λ q. q.id == id) (b.peers s.requests) ≡ some p
      → has_already r p ≡ false
      → Told b r id before s.requests
      → Told b r id before (update_peer_permissions b token device (change_of r p) s).1.requests
  unfolding update_peer_permissions asking send fail succeed
  update_peer_permissions-Told token device p s found fresh h =
      go (b.answers s.requests q) (record s { requests = q ∷ s.requests })
        (tell q s.requests (p, found, change_of-id r p, refl, change_of-ne r p fresh) h)
    where
      q : Request
      q = configure token device (change_of r p).id (new_peer_update_request (change_of r p))

      go :
          (a : Option ApiError) (t : Server)
          → Told b r id before t.requests
          → Told b r id before (answered b (λ e. fail Reply.api_failure) succeed (a, t)).1.requests
      go none t h = h
      go (some e) t h = h

  changing-Told :
      (token device : String) (p : MachinePeer) (e : Reply) (k : Handler) (s : Server)
      → find (λ q. q.id == id) (b.peers s.requests) ≡ some p
      → Tells b r id before k
      → Told b r id before s.requests
      → Told b r id before
          ((if has_already r p
              then fail e
              else (update_peer_permissions b token device (change_of r p) >> k))
            s).1.requests
  unfolding fail ◌>>◌
  changing-Told token device p e k s found hk h = elim (Bool-cases (has_already r p)) [
    | inl same ↦ rw same h
    | inr fresh ↦ rw fresh (
        (Keeps->> (λ t. update_peer_permissions b token device (change_of r p) s) k
            (record { at = λ t i. update_peer_permissions-Told token device p s found fresh h })
            hk).at
          s h)
  ]

  changing_only-Told :
      (token device : String) (p : MachinePeer) (e : Reply) (s : Server)
      → find (λ q. q.id == id) (b.peers s.requests) ≡ some p
      → Told b r id before s.requests
      → Told b r id before
          ((if has_already r p
              then fail e
              else update_peer_permissions b token device (change_of r p))
            s).1.requests
  unfolding fail
  changing_only-Told token device p e s found h = elim (Bool-cases (has_already r p)) [
    | inl same ↦ rw same h
    | inr fresh ↦ rw fresh (update_peer_permissions-Told token device p s found fresh h)
  ]

  permitting :
      Reply
      → (List MachinePeer → MachinePeer → Handler)
      → Settings
      → String
      → List MachinePeer
      → MachinePeer
      → Handler
  permitting e rest cfg device peers p =
      if has_already r p
      then fail e
      else (update_peer_permissions b cfg.token device (change_of r p) >> rest peers p)

  permitting_only : Reply → Settings → String → List MachinePeer → MachinePeer → Handler
  permitting_only e cfg device peers p =
      if has_already r p then fail e else update_peer_permissions b cfg.token device (change_of r p)

  permitting-Tells :
      (e : Reply) (rest : List MachinePeer → MachinePeer → Handler)
      → ((ps : List MachinePeer) (p : MachinePeer) → Tells b r id before (rest ps p))
      → Tells b r id before (with_peer b id (permitting e rest))
  unfolding permitting
  permitting-Tells e rest h =
      with_peer-Tells b r id before (permitting e rest) (λ cfg d p s found told.
        changing-Told cfg.token d p e (rest (b.peers s.requests) p) s found (h _ p) told)

  permitting_only-Tells : (e : Reply) → Tells b r id before (with_peer b id (permitting_only e))
  unfolding permitting_only
  permitting_only-Tells e =
      with_peer-Tells b r id before (permitting_only e)
        (λ cfg d p s found told. changing_only-Told cfg.token d p e s found told)

  -- the networker is told of a peer with an address
  at_address-Tells :
      (e : Reply) (m : MachinePeer → Networker.Method)
      → Tells b r id before (with_peer b id (permitting e (λ ps p. at_address b p (m p))))
  at_address-Tells e m = permitting-Tells e _ (λ ps p.
      Keeps-if (b.world.is_valid_address p.address) _ _ (on_networker-Tells b r id before (m p) _)
        Keeps-succeed)

  changed-Tells :
      (e : Reply)
      → Tells b r id before
          (with_peer b id (permitting e (λ ps p. Peers.changed b id (change_of r p) ps)))
  changed-Tells e = permitting-Tells e _ (λ ps p. on_networker-Tells b r id before _ _)

module _ (b : Backend) (id : String) (before : List Request) where
  serve_peer-Tells : (r : PeerRequest) → Tells b r id before (serve_peer b r id)
  unfolding serve_peer Peers.allow_incoming Peers.deny_incoming Peers.allow_routing
      Peers.deny_routing Peers.allow_local_network Peers.deny_local_network Peers.allow_fileshare
      Peers.deny_fileshare Peers.enable_automatic_fileshare Peers.disable_automatic_fileshare
      has_already change_of permitting permitting_only
  serve_peer-Tells allow_incoming =
      at_address-Tells b allow_incoming id before Reply.incoming_already_allowed (λ p.
        Rules.allow_incoming b.world p.public_key p.address
          (p.do_i_allow_routing && p.do_i_allow_local_network))
  serve_peer-Tells deny_incoming =
      at_address-Tells b deny_incoming id before Reply.incoming_already_denied
        (λ p. Rules.block_incoming b.world p.public_key p.address)
  serve_peer-Tells allow_routing =
      changed-Tells b allow_routing id before Reply.routing_already_allowed
  serve_peer-Tells deny_routing =
      changed-Tells b deny_routing id before Reply.routing_already_denied
  serve_peer-Tells allow_local_network =
      changed-Tells b allow_local_network id before Reply.local_network_already_allowed
  serve_peer-Tells deny_local_network =
      changed-Tells b deny_local_network id before Reply.local_network_already_denied
  serve_peer-Tells allow_fileshare =
      at_address-Tells b allow_fileshare id before Reply.send_already_allowed
        (λ p. Rules.allow_fileshare b.world p.public_key p.address)
  serve_peer-Tells deny_fileshare =
      at_address-Tells b deny_fileshare id before Reply.send_already_denied
        (λ p. Rules.block_fileshare b.world p.public_key p.address)
  serve_peer-Tells enable_automatic_fileshare =
      permitting_only-Tells b enable_automatic_fileshare id before
        Reply.automatic_fileshare_already_enabled
  serve_peer-Tells disable_automatic_fileshare =
      permitting_only-Tells b disable_automatic_fileshare id before
        Reply.automatic_fileshare_already_disabled

-- A request to change a permission of a peer tells the API, whatever it and the settings file answer, of
-- nothing but this: for the peer that was just listed with the identifier, the permission that is asked
-- for, which had another value, with the peer's other permissions as they were listed.
pub serve_peer-Told :
    (b : Backend) (r : PeerRequest) (id : String) (s : Server)
    → Told b r id s.requests (serve_peer b r id s).1.requests
serve_peer-Told b r id s = (serve_peer-Tells b id s.requests r).at s nothing
