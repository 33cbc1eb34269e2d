-- ===== src/Meshnet/Peers.antt =====
-- Permissions of peers, their removal and the notification of a transfer: meshnet/server.go.
use nordvpn_linux.Prelude.{
  ℤ, true, false, not, ◌&&◌, List, [], ◌∷◌, String, Option, none, some, find, map, if◌then◌else◌,
  string_eq, ◌==◌,
}
use nordvpn_linux.Prelude.Action.{succeed, fail, reading, ◌>>◌, when}
use nordvpn_linux.Networker.Rules
use nordvpn_linux.Networker.Mesh
use nordvpn_linux.Networker
use nordvpn_linux.Meshnet.{
  Backend, Settings, Device, MachinePeer, Handler, ApiError, asking, requiring_login, loading,
  log_out, with_device, if_mesh_on, on_networker, is_unauthorized, networker_peer,
  new_peer_update_request, list_peers, list_local, configure, unregister, unpair, notify_transfer,
  not_registered, not_enabled, api_failure, lib_failure, peer_not_found, incoming_already_allowed,
  incoming_already_denied, routing_already_allowed, routing_already_denied,
  local_network_already_allowed, local_network_already_denied, send_already_allowed,
  send_already_denied, automatic_fileshare_already_enabled, automatic_fileshare_already_disabled,
}
use nordvpn_linux.Meshnet.Registration.{requiring_registration, check_registration}

-- the first peer with the identifier is replaced
unfoldable pub replace : String → MachinePeer → List MachinePeer → List MachinePeer
replace id peer [] = []
replace id peer (p ∷ ps) =
    let rest = p ∷ replace id peer ps in if p.id == id then peer ∷ ps else rest

module _ (b : Backend) where
  -- an error of a list: an unauthorized one logs out, and otherwise meshnet may be off by now
  unfoldable pub on_list_error : ApiError → Handler
  unfolding log_out if_mesh_on
  on_list_error e =
      if is_unauthorized e then log_out b else if_mesh_on b (fail api_failure) (fail not_enabled)

  abbrev pub or_not_found : {A : Type 0} → Option A → (A → Handler) → Handler
  or_not_found none k = fail peer_not_found
  or_not_found (some a) k = k a

  -- the list of the peers of the registered device, and the one that the request names
  unfoldable pub listing :
      Settings → String → (String → List MachinePeer → MachinePeer → Handler) → Handler
  unfolding with_device asking on_list_error
  listing cfg identifier k = with_device b cfg λ device.
      asking b (list_peers cfg.token device.id) on_list_error (
        reading λ s.
          let peers = b.peers s.requests in
          or_not_found (find (λ p. p.id == identifier) peers) (k device.id peers))

  -- what the handlers of permissions have in common, up to the peer
  unfoldable pub with_peer :
      String → (Settings → String → List MachinePeer → MachinePeer → Handler) → Handler
  unfolding requiring_login requiring_registration loading listing
  with_peer identifier k = do
    requiring_login b
    requiring_registration b not_registered
    loading b λ cfg. listing cfg identifier (k cfg)

  -- `updatePeerPermissions`
  unfoldable pub update_peer_permissions : String → String → MachinePeer → Handler
  unfolding asking
  update_peer_permissions token device peer =
      asking b (configure token device peer.id (new_peer_update_request peer))
        (λ e. fail api_failure) succeed

  -- the networker is asked only about a peer with an address
  abbrev pub at_address : MachinePeer → Networker.Method → Handler
  at_address peer m = when (b.world.is_valid_address peer.address) (on_networker b m lib_failure)

  unfoldable pub allow_incoming : String → Handler
  unfolding with_peer update_peer_permissions on_networker
  allow_incoming identifier = with_peer identifier λ cfg device peers peer.
      if peer.do_i_allow_inbound then fail incoming_already_allowed else do
        update_peer_permissions cfg.token device (record peer { do_i_allow_inbound = true })
        at_address peer (
            Rules.allow_incoming b.world peer.public_key peer.address
              (peer.do_i_allow_routing && peer.do_i_allow_local_network))

  unfoldable pub deny_incoming : String → Handler
  unfolding with_peer update_peer_permissions on_networker
  deny_incoming identifier = with_peer identifier λ cfg device peers peer.
      if not peer.do_i_allow_inbound then fail incoming_already_denied else do
        update_peer_permissions cfg.token device (record peer { do_i_allow_inbound = false })
        at_address peer (Rules.block_incoming b.world peer.public_key peer.address)

  abbrev pub changed : String → MachinePeer → List MachinePeer → Handler
  changed identifier peer peers =
      on_networker b
        (Mesh.reset_routing b.world (networker_peer peer)
          (map networker_peer (replace identifier peer peers)))
        lib_failure

  unfoldable pub allow_routing : String → Handler
  unfolding with_peer update_peer_permissions on_networker replace
  allow_routing identifier = with_peer identifier λ cfg device peers peer.
      if peer.do_i_allow_routing then fail routing_already_allowed else do
        update_peer_permissions cfg.token device (record peer { do_i_allow_routing = true })
        changed identifier (record peer { do_i_allow_routing = true }) peers

  unfoldable pub deny_routing : String → Handler
  unfolding with_peer update_peer_permissions on_networker replace
  deny_routing identifier = with_peer identifier λ cfg device peers peer.
      if not peer.do_i_allow_routing then fail routing_already_denied else do
        update_peer_permissions cfg.token device (record peer { do_i_allow_routing = false })
        changed identifier (record peer { do_i_allow_routing = false }) peers

  unfoldable pub allow_local_network : String → Handler
  unfolding with_peer update_peer_permissions on_networker replace
  allow_local_network identifier = with_peer identifier λ cfg device peers peer.
      if peer.do_i_allow_local_network then fail local_network_already_allowed else do
        update_peer_permissions cfg.token device (record peer { do_i_allow_local_network = true })
        changed identifier (record peer { do_i_allow_local_network = true }) peers

  unfoldable pub deny_local_network : String → Handler
  unfolding with_peer update_peer_permissions on_networker replace
  deny_local_network identifier = with_peer identifier λ cfg device peers peer.
      if not peer.do_i_allow_local_network then fail local_network_already_denied else do
        update_peer_permissions cfg.token device (record peer { do_i_allow_local_network = false })
        changed identifier (record peer { do_i_allow_local_network = false }) peers

  unfoldable pub allow_fileshare : String → Handler
  unfolding with_peer update_peer_permissions on_networker
  allow_fileshare identifier = with_peer identifier λ cfg device peers peer.
      if peer.do_i_allow_fileshare then fail send_already_allowed else do
        update_peer_permissions cfg.token device (record peer { do_i_allow_fileshare = true })
        at_address peer (Rules.allow_fileshare b.world peer.public_key peer.address)

  unfoldable pub deny_fileshare : String → Handler
  unfolding with_peer update_peer_permissions on_networker
  deny_fileshare identifier = with_peer identifier λ cfg device peers peer.
      if not peer.do_i_allow_fileshare then fail send_already_denied else do
        update_peer_permissions cfg.token device (record peer { do_i_allow_fileshare = false })
        at_address peer (Rules.block_fileshare b.world peer.public_key peer.address)

  unfoldable pub enable_automatic_fileshare : String → Handler
  unfolding with_peer update_peer_permissions
  enable_automatic_fileshare identifier = with_peer identifier λ cfg device peers peer.
      if peer.always_accept_files
      then fail automatic_fileshare_already_enabled
      else update_peer_permissions cfg.token device (record peer { always_accept_files = true })

  unfoldable pub disable_automatic_fileshare : String → Handler
  unfolding with_peer update_peer_permissions
  disable_automatic_fileshare identifier = with_peer identifier λ cfg device peers peer.
      if not peer.always_accept_files
      then fail automatic_fileshare_already_disabled
      else update_peer_permissions cfg.token device (record peer { always_accept_files = false })

  unfoldable pub notify_new_transfer : String → String → ℤ → String → Handler
  unfolding with_peer asking
  notify_new_transfer identifier file_name file_count transfer_id =
      with_peer identifier λ cfg device peers peer.
        asking b (notify_transfer cfg.token device peer.id file_name file_count transfer_id)
          (λ e. fail api_failure) succeed

  -- a device that is not registered may remove the user's own machines
  unfoldable pub remove_local : String → Handler
  unfolding loading asking on_list_error
  remove_local identifier = loading b λ cfg. asking b (list_local cfg.token) on_list_error (
      reading λ s.
        or_not_found (find (λ (d : Device). d.id == identifier) (b.local_machines s.requests))
          λ d. asking b (unregister cfg.token d.id) (λ e. fail api_failure) succeed)

  unfoldable pub remove_listed : String → Handler
  unfolding loading listing asking
  remove_listed identifier = loading b λ cfg. listing cfg identifier λ device peers peer.
      asking b
        (if peer.is_local then unregister cfg.token peer.id else unpair cfg.token device peer.id)
        (λ e. fail api_failure) succeed

  unfoldable pub remove_peer : String → Handler
  unfolding requiring_login check_registration remove_local remove_listed
  remove_peer identifier = do
    requiring_login b
    λ s.
        let (registered, s') = check_registration b s in
        (if registered then remove_listed identifier else remove_local identifier) s'
