-- ===== src/Meshnet/Serving/Shielding/Connection.antt =====
-- The handlers that list peers, start the mesh and connect keep the networker shielded.
use nordvpn_linux.Prelude.{
  Bool, not, String, Option, none, some, if◌then◌else◌, sym, subst, Bool-cases, inl, inr, ◌==◌,
  string_eq,
}
use nordvpn_linux.Prelude.Action.{Keeps-if, Keeps-fail, Keeps->>}
use nordvpn_linux.Networker
use nordvpn_linux.Networker.{Combined, MachineMap, Peer, ServerData}
use nordvpn_linux.Networker.Tunnel
use nordvpn_linux.Networker.Operations.KillSwitch.{IsShielded}
use nordvpn_linux.Meshnet.{Backend, PeerList, Server, Settings, MachinePeer, Reply, ApiError}
use nordvpn_linux.Meshnet.Registration.Effect.{check_registration-netw}
use nordvpn_linux.Meshnet.Listing
use nordvpn_linux.Meshnet.Connection
use nordvpn_linux.Meshnet.Serving.Shielding.Steps.{
  Shielded, shielded_rules, registering-Shielded, registered-Shielded, loading-Shielded,
  requiring_login-Shielded,
}
use nordvpn_linux.Meshnet.Serving.Shielding.Methods.{safe_rules, net_connect-Safe}
use nordvpn_linux.Meshnet.Serving.Shielding.Peers.{listing-Shielded}

module _ (b : Backend) where
  pub tell-Shielded : (list : PeerList) → Shielded (Listing.tell b list)
  unfolding Listing.tell
  tell-Shielded list = record {
    at = λ s h. elim (Bool-cases (s.last_peers == b.show list)) [ inl p ↦ rw p h | inr p ↦ rw p h ];
  }

  pub is_enabled-Shielded : Shielded (Listing.is_enabled b)
  unfolding Listing.is_enabled
  is_enabled-Shielded = Keeps->> _ _ (requiring_login-Shielded b) (
      loading-Shielded b _
        (λ cfg. record { at = λ s h. subst IsShielded (sym (check_registration-netw b s)) h }))

  pub get_private_key-Shielded : Shielded (Listing.get_private_key b)
  unfolding Listing.get_private_key
  get_private_key-Shielded = search (shielded_rules) depth 10

  pub list_registered-Shielded : (cfg : Settings) → Shielded (Listing.list_registered b cfg)
  unfolding Listing.list_registered
  list_registered-Shielded cfg = search (shielded_rules, tell-Shielded) depth 12

  pub list_own-Shielded : (cfg : Settings) → Shielded (Listing.list_own b cfg)
  unfolding Listing.list_own
  list_own-Shielded cfg = search (shielded_rules, tell-Shielded) depth 12

  pub get_peers-Shielded : Shielded (Listing.get_peers b)
  unfolding Listing.get_peers
  get_peers-Shielded = Keeps->> _ _ (requiring_login-Shielded b) (
      loading-Shielded b _ (λ cfg. Keeps-if (not cfg.mesh) _ _ (Keeps-fail Reply.not_enabled) (
        registered-Shielded b
          (λ r. if r then Listing.list_registered b cfg else Listing.list_own b cfg)
          (λ r. Keeps-if r _ _ (list_registered-Shielded cfg) (list_own-Shielded cfg)))))

  pub start_peer-Shielded :
      (cfg : Settings) (p : MachinePeer) → Shielded (Connection.start_peer b cfg p)
  unfolding Connection.start_peer
  start_peer-Shielded cfg p = Keeps-if (not p.does_peer_allow_routing) _ _ (Keeps-fail _) (
      Keeps-if (not (b.world.is_valid_address p.address)) _ _ (Keeps-fail _) (record {
        at = λ s h.
            go
              (Tunnel.connect b.world cfg.private_key (Connection.as_server b p) cfg.allowlist
                (Connection.nameservers_of b cfg) (not p.does_peer_allow_local_network) s.netw)
              s
              ((net_connect-Safe b cfg.private_key (Connection.as_server b p) cfg.allowlist
                  (Connection.nameservers_of b cfg) (not p.does_peer_allow_local_network)).at
                s.netw h);
      }))
    where
      go :
          (r : Option Networker.Error × Combined) (s : Server)
          → IsShielded r.1
          → IsShielded (Connection.started b p r s).1.netw
      go (none, n) s h = h
      go (some e, n) s h = h

  pub connect_peer-Shielded : (id : String) → Shielded (Connection.connect_peer b id)
  unfolding Connection.connect_peer
  connect_peer-Shielded id =
      search (shielded_rules, listing-Shielded, start_peer-Shielded) depth 16 fits 9000

  pub connect-Shielded :
      (connecting : Bool) (id : String) → Shielded (Connection.connect b connecting id)
  unfolding Connection.connect
  connect-Shielded connecting id =
      Keeps-if connecting _ _ (Keeps-fail Reply.already_connecting) (connect_peer-Shielded id)

  pub on_map_error-Shielded : (e : ApiError) → Shielded (Connection.on_map_error b e)
  unfolding Connection.on_map_error
  on_map_error-Shielded e = search (shielded_rules) depth 8

  pub start_meshnet-Shielded : Shielded (Connection.start_meshnet b)
  unfolding Connection.start_meshnet
  start_meshnet-Shielded =
      search (shielded_rules, registering-Shielded, on_map_error-Shielded, safe_rules) depth 16 fits
        9000

  pub refresh_meshnet-Shielded : Shielded (Connection.refresh_meshnet b)
  unfolding Connection.refresh_meshnet
  refresh_meshnet-Shielded = search (shielded_rules, safe_rules) depth 16 fits 9000
