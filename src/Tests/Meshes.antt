-- ===== src/Tests/Meshes.antt =====
-- Examples of the meshnet service.
use nordvpn_linux.Prelude.{
  find, pos, true, false, List, [], ◌∷◌, ◌++◌, none, some, ◌≡◌, refl, string_eq, contains, ◌==◌,
}
use nordvpn_linux.Prelude.Action.{for_each, reading, ◌>>◌}
use nordvpn_linux.Config.{nordlynx}
use nordvpn_linux.Meshnet.{
  Backend, Server, Settings, Device, MachinePeer, ListedPeer, PeerList, ApiError, unauthorized,
  check_login, load_config,
}
use nordvpn_linux.Networker.Operations.KillSwitch.{IsShielded}
use nordvpn_linux.Networker.Rules.{rule_name, allow_fileshare_rule}
use nordvpn_linux.Meshnet.Listing.{lookup, make_peer_maps, names_of}
use nordvpn_linux.Meshnet.Listing.Maps.{find_last, all_peers, lookup-make_peer_maps}
use nordvpn_linux.Meshnet.Serving.{
  serve_peer, MeshRequest, serve_mesh, serve_all, of_peer, allow_incoming, connect_peer,
  enable_meshnet, disable_meshnet,
}
use nordvpn_linux.Meshnet.Serving.Login.{serve_mesh-not_logged_in}
use nordvpn_linux.Meshnet.Serving.Shielding.{serve_all-IsShielded}
use nordvpn_linux.Meshnet.Serving.Telling.Changes.{Told}
use nordvpn_linux.Meshnet.Serving.Telling.{serve_peer-Told}
use nordvpn_linux.Meshnet.Nicknames
use nordvpn_linux.Meshnet.Nicknames.Faults.{change_peer_nickname-panicked}
use nordvpn_linux.Meshnet.Connection.{toggle_fileshare}
use nordvpn_linux.Meshnet.Connection.Faults.{toggle_fileshare-rules}
use nordvpn_linux.Meshnet.{panicked, not_logged_in}
use nordvpn_linux.Tests.Networking.{world, start, no_allowlist}

abbrev laptop : Device
laptop = record {
  id = "d1";
  public_key = "pub1";
  hostname = "alps.nord";
  nickname = "";
  address = "100.64.0.2";
  hardware_id = "h1";
  supports_routing = true;
}

abbrev phone : MachinePeer
phone = record {
  id = "p1";
  hostname = "andes.nord";
  public_key = "Pub2";
  address = "100.64.0.3";
  email = "a@b.c";
  is_local = true;
  does_peer_allow_routing = true;
  does_peer_allow_inbound = true;
  does_peer_allow_local_network = true;
  does_peer_allow_fileshare = true;
  do_i_allow_inbound = false;
  do_i_allow_routing = true;
  do_i_allow_local_network = true;
  do_i_allow_fileshare = false;
  always_accept_files = false;
  nickname = "pixel";
}

-- a phone that was lent to another user has the same nickname
abbrev tablet : MachinePeer
tablet = record phone {
  id = "p2";
  hostname = "urals.nord";
  public_key = "Pub3";
  address = "100.64.0.4";
}

abbrev online : Backend
online = record {
  world = world;
  answers = λ requests r. none;
  peers = λ requests. phone ∷ [];
  local_machines = λ requests. laptop ∷ [];
  machine_map = λ requests. start.cfg;
  machine = λ requests. laptop;
  registered = λ requests. laptop;
  received = λ requests. [];
  sent = λ requests. [];
  addresses = λ requests. [];
  new_key = λ requests. "key1";
  public_key = λ k. "pub1";
  is_connected = λ requests k. true;
  is_canceled = λ requests. false;
  nameservers = λ t. "103.86.96.100" ∷ [];
  to_lower = λ s. s;
  equal_fold = λ x y. x == y;
  show = λ ps. "";
}

abbrev logged_out : Backend
logged_out = record online { answers = λ requests r. some unauthorized }

abbrev settings : Settings
settings = record {
  mesh = true;
  postquantum_vpn = false;
  technology = nordlynx;
  token = "token";
  device = some laptop;
  private_key = "key1";
  enabled_by_uid = pos 1000;
  dns = none;
  threat_protection_lite = false;
  allowlist = no_allowlist;
}

abbrev server : Server
server = record {
  settings = settings;
  netw = start;
  requests = [];
  last_peers = "";
  last_connected_peer = "";
  peer_updates = [];
}

-- nothing was registered yet
abbrev unregistered : Server
unregistered = record server { settings = record settings { device = none; private_key = "" } }

-- the kill switch is set
abbrev blocked : Server
blocked = record server { netw = record start { is_kill_switch_set = true; is_network_set = true } }

abbrev some_requests : List MeshRequest
some_requests =
    of_peer allow_incoming "p1"
    ∷ connect_peer false "p1"
    ∷ disable_meshnet
    ∷ enable_meshnet (pos 1000) true
    ∷ []

serve_all-IsShielded_example : IsShielded (serve_all online some_requests blocked).netw
serve_all-IsShielded_example = serve_all-IsShielded online some_requests blocked (λ e. refl)

serve_mesh-not_logged_in_example :
    serve_mesh logged_out (connect_peer false "p1") server
    ≡ (some not_logged_in, record server { requests = check_login ∷ [] })
serve_mesh-not_logged_in_example =
    serve_mesh-not_logged_in logged_out (connect_peer false "p1") server unauthorized refl refl

serve_peer-Told_example :
    Told online allow_incoming "p1" [] (serve_peer online allow_incoming "p1" server).1.requests
serve_peer-Told_example = serve_peer-Told online allow_incoming "p1" server

-- the external tablet is listed before the phone that has the same nickname
abbrev listed_peers : PeerList
listed_peers = record {
  self = some laptop;
  local_peers = record { peer = phone; connected = true } ∷ [];
  external_peers = record { peer = tablet; connected = true } ∷ [];
}

lookup-make_peer_maps_example :
    (lookup "pixel" (make_peer_maps online listed_peers).0
      ≡ find_last (λ p. p.public_key == "pixel") (all_peers listed_peers))
    × (lookup "pixel" (make_peer_maps online listed_peers).1
        ≡ find_last (λ p. contains (names_of online p) "pixel") (all_peers listed_peers))
lookup-make_peer_maps_example = lookup-make_peer_maps online listed_peers "pixel"

pixel : lookup "pixel" (make_peer_maps online listed_peers).1 ≡ some phone
unfolding lookup make_peer_maps names_of
pixel = refl

change_peer_nickname-panicked_example :
    (Nicknames.change_peer_nickname online "p1" "mobile" unregistered).0 ≡ some panicked
unfolding nordvpn_linux.Meshnet.Registration.check_registration
change_peer_nickname-panicked_example =
    change_peer_nickname-panicked online "p1" "mobile" unregistered refl refl refl refl refl

toggle_fileshare-rules_example :
    (toggle_fileshare online true server).1.netw.rules
    ≡ start.rules ++ rule_name "Pub2" allow_fileshare_rule "100.64.0.3" ∷ []
unfolding nordvpn_linux.Networker.Rules.allow_fileshare reading contains ◌>>◌
    nordvpn_linux.Networker.on_firewall nordvpn_linux.Firewall.Service.add for_each find
    nordvpn_linux.Firewall.Service.working_add
toggle_fileshare-rules_example =
    toggle_fileshare-rules online server laptop phone refl refl refl refl refl refl
