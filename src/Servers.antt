-- ===== src/Servers.antt =====
-- VPN servers and the tests on them: core/models.go, with internal/string.go and nstrings/bool.go.
pub mod ServerTechnology
pub mod Names
pub mod Select
pub mod Dedicated
use ServerTechnology
use nordvpn_linux.Prelude.{
  ℕ, ℤ, Bool, true, false, ◌&&◌, ◌||◌, ◌==◌, nat_eq, text_eq, Option, none, some, List, [], ◌∷◌,
  map, Text, codes, to_lower, contains_func, contains, find, if◌then◌else◌,
}
use nordvpn_linux.Config.{
  Technology, unknown_technology, openvpn, nordlynx, Protocol, unknown_protocol, udp, tcp,
}
use nordvpn_linux.Config.Group.{ServerGroup}

-- `status` is that of the pivot
pub record ServedTechnology : Type 0 where
  pub id : ℕ
  pub status : Text

pub record ServedGroup : Type 0 where
  pub id : ServerGroup
  pub title : Text

pub record Specification : Type 0 where
  pub identifier : Text
  pub values : List Text

-- The fields that the selection reads.
pub record Server : Type 0 where
  pub id : ℤ
  pub hostname : Text
  pub status : Text
  pub technologies : List ServedTechnology
  pub groups : List ServedGroup
  pub specifications : List Specification
  pub keys : List Text

abbrev pub online : Text
online = codes "online"

unfoldable pub is_online : Server → Bool
is_online s = s.status == online

-- the loop of `IsConnectableVia`: the first online entry of the technology decides
via_technologies : ℕ → List ServedTechnology → Bool → Bool
via_technologies tech [] up = false
via_technologies tech (t ∷ ts) up =
    let rest = via_technologies tech ts up in
    if t.id == tech && t.status == online then up else rest

unfoldable pub is_connectable_via : ℕ → Server → Bool
unfolding via_technologies is_online
is_connectable_via tech s = via_technologies tech s.technologies (is_online s)

unfoldable pub is_obfuscated : Server → Bool
unfolding is_connectable_via
is_obfuscated s =
    is_connectable_via ServerTechnology.openvpn_udp_obfuscated s
    && is_connectable_via ServerTechnology.openvpn_tcp_obfuscated s

unfoldable pub is_connectable_with_protocol : Technology → Protocol → Server → Bool
unfolding is_connectable_via
is_connectable_with_protocol nordlynx proto s = is_connectable_via ServerTechnology.wireguard s
is_connectable_with_protocol openvpn udp s =
    is_connectable_via ServerTechnology.openvpn_udp s
    || is_connectable_via ServerTechnology.openvpn_udp_obfuscated s
is_connectable_with_protocol openvpn tcp s =
    is_connectable_via ServerTechnology.openvpn_tcp s
    || is_connectable_via ServerTechnology.openvpn_tcp_obfuscated s
is_connectable_with_protocol openvpn unknown_protocol s = false
is_connectable_with_protocol unknown_technology proto s = false

-- strings.Split(hostname, ".")[0]
unfoldable pub before_dot : Text → Text
before_dot [] = []
before_dot (c ∷ s) = let rest = before_dot s in if c == b'.' then [] else c ∷ rest

pub data ServerObfuscationStatus : Type 0 where
  server_obfuscated server_not_obfuscated not_a_server_name : ServerObfuscationStatus

obfuscation_of : Option Server → ServerObfuscationStatus
unfolding is_obfuscated
obfuscation_of none = not_a_server_name
obfuscation_of (some s) = if is_obfuscated s then server_obfuscated else server_not_obfuscated

unfoldable pub is_server_obfuscated : List Server → Text → ServerObfuscationStatus
unfolding obfuscation_of before_dot
is_server_obfuscated servers tag = obfuscation_of (find (λ s. before_dot s.hostname == tag) servers)

-- the values of the first specification with the identifier
unfoldable pub get_specifications_for_identifier : Text → List Specification → List Text
get_specifications_for_identifier identifier [] = []
get_specifications_for_identifier identifier (spec ∷ specs) =
    let rest = get_specifications_for_identifier identifier specs in
    if spec.identifier == identifier then spec.values else rest

-- none is the parse error
unfoldable pub bool_from_string : Text → Option Bool
unfolding to_lower
bool_from_string arg =
    let word = to_lower arg in
    if contains (map codes ("0" ∷ "false" ∷ "disable" ∷ "disabled" ∷ "off" ∷ [])) word
    then some false
    else if contains (map codes ("1" ∷ "true" ∷ "enable" ∷ "enabled" ∷ "on" ∷ [])) word
    then some true
    else none

first_is_true : List Text → Bool
unfolding bool_from_string
first_is_true [] = false
first_is_true (value ∷ _) = elim (bool_from_string value) [ none ↦ false | some b ↦ b ]

unfoldable pub is_virtual_location : Server → Bool
unfolding first_is_true get_specifications_for_identifier
is_virtual_location s =
    first_is_true (get_specifications_for_identifier (codes "virtual_location") s.specifications)

unfoldable pub by_group : ServerGroup → ServedGroup → Bool
by_group group g = g.id == group
