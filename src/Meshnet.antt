-- ===== src/Meshnet.antt =====
-- The meshnet service of the daemon: meshnet/server.go and meshnet/register.go. This file has its state,
-- the requests that it sends, what they are answered with, and the steps that its handlers share.
pub mod Steps
pub mod Registration
pub mod Invitations
pub mod Peers
pub mod Nicknames
pub mod Listing
pub mod Connection
pub mod Switching
pub mod Serving
use nordvpn_linux.Prelude.{
  ℤ, Bool, true, false, not, ◌&&◌, List, [], ◌∷◌, String, Option, none, some, if◌then◌else◌,
  string_eq, ◌==◌,
}
use nordvpn_linux.Prelude.Action.{Action, succeed, fail, reading, ◌>>◌}
use nordvpn_linux.Config.{Technology}
use nordvpn_linux.Config.Allowlist.{Allowlist}
use nordvpn_linux.Networker.{World, Combined, MachineMap, Peer}
use nordvpn_linux.Networker

-- The errors of the API that some code tells apart. An error is of one kind.
pub data ApiError : Type 0 where
  unauthorized too_many_requests maximum_device_count conflict : ApiError
  -- "must be a valid email address", and MsgMeshnetInviteSendSameAccountEmail
  bad_email own_email : ApiError
  rate_limit_reach too_long duplicate forbidden_word invalid_prefix_or_suffix : ApiError
  double_hyphens forbidden_chars : ApiError
  unknown : ApiError

-- mesh.Machine; identifiers are texts, the nil one and an invalid address are empty
pub record Device : Type 0 where
  pub id : String
  pub public_key : String
  pub hostname : String
  pub nickname : String
  pub address : String
  pub hardware_id : String
  pub supports_routing : Bool

-- mesh.MachinePeer, without its operating system and its endpoints
pub record MachinePeer : Type 0 where
  pub id : String
  pub hostname : String
  pub public_key : String
  pub address : String
  pub email : String
  pub is_local : Bool
  pub does_peer_allow_routing : Bool
  pub does_peer_allow_inbound : Bool
  pub does_peer_allow_local_network : Bool
  pub does_peer_allow_fileshare : Bool
  pub do_i_allow_inbound : Bool
  pub do_i_allow_routing : Bool
  pub do_i_allow_local_network : Bool
  pub do_i_allow_fileshare : Bool
  pub always_accept_files : Bool
  pub nickname : String

-- mesh.PeerUpdateRequest
pub record PeerUpdate : Type 0 where
  pub do_i_allow_inbound : Bool
  pub do_i_allow_routing : Bool
  pub do_i_allow_local_network : Bool
  pub do_i_allow_fileshare : Bool
  pub always_accept_files : Bool
  pub nickname : String

-- mesh.NewPeerUpdateRequest
unfoldable pub new_peer_update_request : MachinePeer → PeerUpdate
new_peer_update_request peer = record {
  do_i_allow_inbound = peer.do_i_allow_inbound;
  do_i_allow_routing = peer.do_i_allow_routing;
  do_i_allow_local_network = peer.do_i_allow_local_network;
  do_i_allow_fileshare = peer.do_i_allow_fileshare;
  always_accept_files = peer.always_accept_files;
  nickname = peer.nickname;
}

-- the part of a peer that the networker reads
abbrev pub networker_peer : MachinePeer → Peer
networker_peer p = record {
  public_key = p.public_key;
  hostname = p.hostname;
  nickname = p.nickname;
  address = p.address;
  do_i_allow_inbound = p.do_i_allow_inbound;
  do_i_allow_routing = p.do_i_allow_routing;
  do_i_allow_local_network = p.do_i_allow_local_network;
  do_i_allow_fileshare = p.do_i_allow_fileshare;
}

pub record Invitation : Type 0 where
  pub id : String
  pub email : String
  pub os : String

-- incoming traffic, routing, local network, file sharing
pub record Permissions : Type 0 where
  pub incoming : Bool
  pub routing : Bool
  pub local_network : Bool
  pub fileshare : Bool

-- What the service asks of the other parts but the networker. The token and the device of the caller
-- come first.
pub data Request : Type 0 where
  check_login load_config save_config generate_key release_name : Request
  register_device : String → String → Request
  update_device : String → String → String → Request
  list_peers map_peers : String → String → Request
  list_local : String → Request
  configure : String → String → String → PeerUpdate → Request
  unregister : String → String → Request
  unpair : String → String → String → Request
  notify_transfer : String → String → String → String → ℤ → String → Request
  send_invitation : String → String → String → Permissions → Request
  list_received list_sent : String → String → Request
  accept_invitation : String → String → String → Permissions → Request
  reject_invitation revoke_invitation : String → String → String → Request
  lookup_ip : String → Request
  start_fileshare stop_fileshare : ℤ → Request

-- The settings that the service reads. `token` is TokensData[AutoConnectData.ID].Token, empty after a
-- logout.
pub record Settings : Type 0 where
  pub mesh : Bool
  pub postquantum_vpn : Bool
  pub technology : Technology
  pub token : String
  pub device : Option Device
  pub private_key : String
  pub enabled_by_uid : ℤ
  pub dns : Option (List String)
  pub threat_protection_lite : Bool
  pub allowlist : Allowlist

-- pb.Peer, as far as a list of peers tells it
pub record ListedPeer : Type 0 where
  pub peer : MachinePeer
  pub connected : Bool

-- pb.PeerList
pub record PeerList : Type 0 where
  pub self : Option Device
  pub local_peers : List ListedPeer
  pub external_peers : List ListedPeer

-- The replies but `Empty`, which is the reply of a handler that runs to its end.
pub data Reply : Type 0 where
  not_logged_in config_failure api_failure : Reply
  not_registered not_enabled lib_failure tech_failure : Reply
  peer_not_found no_such_invitation : Reply
  already_enabled already_disabled conflict_with_pq tunnel_closed : Reply
  limit_reached peer_count already_exists invalid_email same_account_email device_count : Reply
  incoming_already_allowed incoming_already_denied : Reply
  routing_already_allowed routing_already_denied : Reply
  local_network_already_allowed local_network_already_denied : Reply
  send_already_allowed send_already_denied : Reply
  automatic_fileshare_already_enabled automatic_fileshare_already_disabled : Reply
  nickname_already_empty same_nickname domain_name_exists rate_limited nickname_too_long : Reply
  duplicate_nickname contains_forbidden_word suffix_or_prefix_are_invalid : Reply
  nickname_has_double_hyphens invalid_chars : Reply
  peer_does_not_allow_routing peer_no_ip already_connecting : Reply
  already_connected canceled connect_failed : Reply
  -- the device of the settings is nil where it is read
  panicked : Reply
  -- replies that carry a value
  enabled_status : Bool → ℤ → Reply
  invites : List Invitation → List Invitation → Reply
  peers : PeerList → Reply
  key : String → Reply

-- What the other parts answer, by the requests made before; an answer may be an error. `peers` and the
-- fields behind it are the results of requests that succeed.
pub record Backend : Type 0 where
  pub world : World
  pub answers : List Request → Request → Option ApiError
  pub peers : List Request → List MachinePeer
  pub local_machines : List Request → List Device
  pub machine_map : List Request → MachineMap
  -- the own machine in the same answer
  pub machine : List Request → Device
  pub registered : List Request → Device
  pub received : List Request → List Invitation
  pub sent : List Request → List Invitation
  pub addresses : List Request → List String
  pub new_key : List Request → String
  pub public_key : String → String
  -- the networker's status map has "connected" for the public key
  pub is_connected : List Request → String → Bool
  -- the error of a start says that the context was canceled
  pub is_canceled : List Request → Bool
  -- dns.Getter.Get
  pub nameservers : Bool → List String
  -- strings.ToLower and strings.EqualFold
  pub to_lower : String → String
  pub equal_fold : String → String → Bool
  -- peers.String()
  pub show : PeerList → String

-- `Server` and the parts that it changes. `requests` has the latest first. `peer_updates` has,
-- for each event of subjectPeerUpdate, the list of peers that led to it.
pub record Server : Type 0 where
  pub settings : Settings
  pub netw : Combined
  pub requests : List Request
  pub last_peers : String
  pub last_connected_peer : String
  pub peer_updates : List String

-- A handler: the reply, where it is not `Empty`, and the server.
abbrev pub Handler : Type 0
Handler = Action Reply Server

abbrev pub is_unauthorized : ApiError → Bool
is_unauthorized unauthorized = true
is_unauthorized _ = false

module _ (b : Backend) where
  unfoldable pub send : Request → Server → Option ApiError × Server
  send q s = (b.answers s.requests q, record s { requests = q ∷ s.requests })

  abbrev pub answered :
      (ApiError → Handler) → Handler → Option ApiError × Server → Option Reply × Server
  answered on_error k (none, s) = k s
  answered on_error k (some e, s) = on_error e s

  -- a request, what its error leads to, and what its success leads to
  unfoldable pub asking : Request → (ApiError → Handler) → Handler → Handler
  unfolding send
  asking q on_error k s = answered on_error k (send q s)

  -- s.ac.IsLoggedIn()
  unfoldable pub requiring_login : Handler
  unfolding asking
  requiring_login = asking check_login (λ e. fail not_logged_in) succeed

  -- s.cm.Load(&cfg)
  unfoldable pub loading : (Settings → Handler) → Handler
  unfolding asking
  loading k = asking load_config (λ e. fail config_failure) (reading λ s. k s.settings)

  -- s.cm.SaveWith
  unfoldable pub saving : (Settings → Settings) → Handler
  unfolding asking
  saving f =
      asking save_config (λ e. fail config_failure)
        (λ s. (none, record s { settings = f s.settings }))

  -- auth.Logout, after an unauthorized request
  unfoldable pub log_out : Handler
  unfolding saving
  log_out = do saving λ c. record c { token = "" }; fail not_logged_in

  -- an error of the API that leads to a logout if it is an unauthorized one
  unfoldable pub or_log_out : Reply → ApiError → Handler
  unfolding log_out
  or_log_out reply e = if is_unauthorized e then log_out else fail reply

  -- cfg.MeshDevice, where it is read
  unfoldable pub with_device : Settings → (Device → Handler) → Handler
  with_device cfg k = elim cfg.device [ none ↦ fail panicked | some d ↦ k d ]

  -- `isMeshOn`
  unfoldable pub if_mesh_on : Handler → Handler → Handler
  unfolding asking
  if_mesh_on on off =
      asking load_config (λ e. off) (reading λ s. if s.settings.mesh then on else off)

  abbrev pub networked : Reply → Option Networker.Error × Combined → Server → Option Reply × Server
  networked reply (none, n) s = (none, record s { netw = n })
  networked reply (some e, n) s = (some reply, record s { netw = n })

  -- a method of the networker, and the reply to its error
  unfoldable pub on_networker : Networker.Method → Reply → Handler
  on_networker m reply s = networked reply (m s.netw) s
