-- ===== src/Meshnet/Listing.antt =====
-- What the service tells of meshnet and of its peers: meshnet/server.go.
pub mod Maps
use Prim.Native.String
use nordvpn_linux.Prelude.{
  Bool, true, false, not, ◌&&◌, List, [], ◌∷◌, ◌++◌, String, Option, none, some, map, filter,
  if◌then◌else◌, string_eq, ◌==◌,
}
use nordvpn_linux.Prelude.Action.{succeed, fail, reading, update, ◌>>◌}
use nordvpn_linux.Networker.Mesh.{trim_suffix}
use nordvpn_linux.Meshnet.{
  Backend, Server, Settings, Device, MachinePeer, ListedPeer, PeerList, Reply, Handler, asking,
  requiring_login, loading, with_device, list_peers, list_local, not_enabled, enabled_status, peers,
  key,
}
use nordvpn_linux.Meshnet.Registration.{check_registration}
use nordvpn_linux.Meshnet.Peers.{on_list_error}

-- pb.Peer of a machine of one's own
abbrev pub machine_peer : Device → MachinePeer
machine_peer d = record {
  id = d.id;
  hostname = d.hostname;
  public_key = d.public_key;
  address = d.address;
  email = "";
  is_local = false;
  does_peer_allow_routing = false;
  does_peer_allow_inbound = false;
  does_peer_allow_local_network = false;
  does_peer_allow_fileshare = false;
  do_i_allow_inbound = false;
  do_i_allow_routing = false;
  do_i_allow_local_network = false;
  do_i_allow_fileshare = false;
  always_accept_files = false;
  nickname = d.nickname;
}

module _ (b : Backend) where
  -- `IsEnabled`
  unfoldable pub is_enabled : Handler
  unfolding requiring_login loading check_registration
  is_enabled = do
    requiring_login b
    loading b λ cfg s.
        let (registered, s') = check_registration b s in
        (some (enabled_status (registered && cfg.mesh) cfg.enabled_by_uid), s')

  unfoldable pub get_private_key : Handler
  unfolding requiring_login loading
  get_private_key = do requiring_login b; loading b λ cfg. fail (key cfg.private_key)

  -- a change of the list since the last request is published
  unfoldable pub tell : PeerList → Handler
  tell list s = (
    some (peers list),
    if s.last_peers == b.show list
        then s
        else record s { last_peers = b.show list; peer_updates = b.show list ∷ s.peer_updates },
  )

  unfoldable pub own_machines : List Device → PeerList
  own_machines devices = record {
    self = none;
    local_peers = map (λ d. record { peer = machine_peer d; connected = false }) devices;
    external_peers = [];
  }

  abbrev listed : Server → List MachinePeer → List ListedPeer
  listed s ps =
      map (λ p. record { peer = p; connected = b.is_connected s.requests p.public_key }) ps

  -- the loop over the peers
  unfoldable pub sorted : Device → Server → List MachinePeer → PeerList
  sorted device s ps = record {
    self = some device;
    local_peers = listed s (filter (λ p. p.is_local) ps);
    external_peers = listed s (filter (λ p. not p.is_local) ps);
  }

  -- the peers of the registered device
  unfoldable pub list_registered : Settings → Handler
  unfolding with_device asking on_list_error tell sorted
  list_registered cfg = with_device b cfg λ device.
      asking b (list_peers cfg.token device.id) (on_list_error b)
        (reading λ s. tell (sorted device s (b.peers s.requests)))

  -- the user's own machines, where the device is not registered
  unfoldable pub list_own : Settings → Handler
  unfolding asking on_list_error tell own_machines
  list_own cfg =
      asking b (list_local cfg.token) (on_list_error b)
        (reading λ s. tell (own_machines (b.local_machines s.requests)))

  unfoldable pub get_peers : Handler
  unfolding requiring_login loading check_registration list_registered list_own
  get_peers = do
    requiring_login b
    loading b λ cfg. if not cfg.mesh then fail not_enabled else λ s.
        let (registered, s') = check_registration b s in
        (if registered then list_registered cfg else list_own cfg) s'

  -- the names of a peer, in the order in which the map is given them
  unfoldable pub names_of : MachinePeer → List String
  names_of p =
      let nicknames = b.to_lower p.nickname ∷ String.◌++◌ (b.to_lower p.nickname) ".nord" ∷ [] in
      b.to_lower p.address
      ∷ b.to_lower p.hostname
      ∷ b.to_lower (trim_suffix ".nord" p.hostname)
      ∷ (if p.nickname == "" then [] else nicknames)

-- A map is the list of its assignments, the latest first.
abbrev pub PeerMap : Type 0
PeerMap = List (String × MachinePeer)

unfoldable pub lookup : String → PeerMap → Option MachinePeer
lookup k [] = none
lookup k ((j, p) ∷ m) = let rest = lookup k m in if j == k then some p else rest

-- m[k] = p, for each of the names
unfoldable pub assign : List String → MachinePeer → PeerMap → PeerMap
assign [] p m = m
assign (k ∷ ks) p m = assign ks p ((k, p) ∷ m)

-- the loop of `MakePeerMaps`: the peers by public key, and by name
unfoldable pub fill_maps : Backend → List MachinePeer → PeerMap × PeerMap → PeerMap × PeerMap
unfolding assign
fill_maps b [] maps = maps
fill_maps b (p ∷ ps) (by_key, by_name) =
    fill_maps b ps ((p.public_key, p) ∷ by_key, assign (names_of b p) p by_name)

unfoldable pub make_peer_maps : Backend → PeerList → PeerMap × PeerMap
unfolding fill_maps
make_peer_maps b list =
    fill_maps b (map (λ (l : ListedPeer). l.peer) (list.external_peers ++ list.local_peers))
      ([], [])
