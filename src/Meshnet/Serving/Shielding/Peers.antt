-- ===== src/Meshnet/Serving/Shielding/Peers.antt =====
-- The handlers about peers keep the networker shielded.
use nordvpn_linux.Prelude.{List, String, ℤ, if◌then◌else◌, string_eq}
use nordvpn_linux.Prelude.Action.{Keeps-if, Keeps->>}
use nordvpn_linux.Meshnet.{Backend, Settings, MachinePeer, Handler}
use nordvpn_linux.Meshnet.Peers
use nordvpn_linux.Meshnet.Peers.{
  on_list_error, or_not_found, listing, with_peer, update_peer_permissions,
}
use nordvpn_linux.Meshnet.Serving.{PeerRequest, serve_peer, allow_incoming}
use nordvpn_linux.Meshnet.Serving.Shielding.Steps.{
  Shielded, shielded_rules, registered-Shielded, requiring_login-Shielded,
}
use nordvpn_linux.Meshnet.Serving.Shielding.Methods.{safe_rules}

module _ (b : Backend) where
  pub listing-Shielded :
      (cfg : Settings) (id : String) (k : String → List MachinePeer → MachinePeer → Handler)
      → ((d : String) (ps : List MachinePeer) (p : MachinePeer) → Shielded (k d ps p))
      → Shielded (listing b cfg id k)
  unfolding listing
  listing-Shielded cfg id k h = search (shielded_rules, h) depth 14 fits 6000

  pub with_peer-Shielded :
      (id : String) (k : Settings → String → List MachinePeer → MachinePeer → Handler)
      → ((cfg : Settings) (d : String) (ps : List MachinePeer) (p : MachinePeer)
          → Shielded (k cfg d ps p))
      → Shielded (with_peer b id k)
  unfolding with_peer
  with_peer-Shielded id k h = search (shielded_rules, listing-Shielded, h) depth 14 fits 6000

  pub update_peer_permissions-Shielded :
      (token device : String) (p : MachinePeer)
      → Shielded (update_peer_permissions b token device p)
  unfolding update_peer_permissions
  update_peer_permissions-Shielded token device p = search (shielded_rules) depth 8

  ruleset peer_rules = (
    shielded_rules, safe_rules, with_peer-Shielded, update_peer_permissions-Shielded,
    listing-Shielded,
  )

  pub serve_peer-Shielded : (r : PeerRequest) (id : String) → Shielded (serve_peer b r id)
  unfolding serve_peer Peers.allow_incoming Peers.deny_incoming Peers.allow_routing
      Peers.deny_routing Peers.allow_local_network Peers.deny_local_network Peers.allow_fileshare
      Peers.deny_fileshare Peers.enable_automatic_fileshare Peers.disable_automatic_fileshare
  serve_peer-Shielded allow_incoming id = search (peer_rules) depth 16 fits 9000
  serve_peer-Shielded r id = search (peer_rules) depth 16 fits 9000

  pub notify_new_transfer-Shielded :
      (id name : String) (count : ℤ) (transfer : String)
      → Shielded (Peers.notify_new_transfer b id name count transfer)
  unfolding Peers.notify_new_transfer
  notify_new_transfer-Shielded id name count transfer = search (peer_rules) depth 14 fits 6000

  pub remove_local-Shielded : (id : String) → Shielded (Peers.remove_local b id)
  unfolding Peers.remove_local
  remove_local-Shielded id = search (shielded_rules) depth 14 fits 6000

  pub remove_listed-Shielded : (id : String) → Shielded (Peers.remove_listed b id)
  unfolding Peers.remove_listed
  remove_listed-Shielded id = search (shielded_rules, listing-Shielded) depth 14 fits 6000

  pub remove_peer-Shielded : (id : String) → Shielded (Peers.remove_peer b id)
  unfolding Peers.remove_peer
  remove_peer-Shielded id = Keeps->> _ _ (requiring_login-Shielded b) (
      registered-Shielded b (λ r. if r then Peers.remove_listed b id else Peers.remove_local b id)
        (λ r. Keeps-if r _ _ (remove_listed-Shielded id) (remove_local-Shielded id)))
