-- ===== src/Servers/Select.antt =====
-- Server selection: daemon/servers.go. The servers' API, the clock-seeded choice, strings.EqualFold and
-- the user's subscription services are parameters; the coordinates only go into the API's answers.
pub mod Safety
pub mod Panic
pub mod Technologies
use nordvpn_linux.Prelude.{
  ℕ, ℤ, pos, negsuc, int_eq, Bool, true, false, ◌&&◌, ◌||◌, not, ◌==◌, nat_eq, bool_eq, text_eq,
  Option, none, some, List, [], ◌∷◌, ◌++◌, map, Text, codes, contains_func, contains, find, filter,
  if◌then◌else◌, length, ltb, get_elem?,
}
use nordvpn_linux.Config.{
  Technology, unknown_technology, openvpn, nordlynx, Protocol, unknown_protocol, udp, tcp,
}
use nordvpn_linux.Config.Group
use nordvpn_linux.Config.Group.{ServerGroup}
use nordvpn_linux.Servers.{
  Server, before_dot, is_connectable_with_protocol, is_obfuscated, is_virtual_location, by_group,
}
use nordvpn_linux.Servers.ServerTechnology
use nordvpn_linux.Servers.Names.{
  Country, ServerTag, by_unknown, by_speed, by_name, ServerBy, group_convert,
  server_location_tag_from_string, matches_tag,
}

-- The errors that the callers tell apart; `other` is any error they do not name.
pub data Err : Type 0 where
  double_group group_does_not_exist tag_does_not_exist server_is_unavailable : Err
  virtual_server_selected dedicated_ip_server unauthorized not_logged_in unhandled other : Err
  dedicated_ip_renew_error dedicated_ip_service_but_no_servers dedicated_ip_no_server : Err

pub data Result (A : Type 0) : Type 0 where
  ok : A → Result A
  err : Err → Result A

-- `ServersFilter`
pub record ServersFilter : Type 0 where
  pub limit : ℕ
  pub tech : ℕ
  pub group : ServerGroup
  pub tag : ServerTag

-- core.ServersAPI at the user's coordinates
pub record Api : Type 0 where
  pub server : ℤ → Result Server
  pub recommended_servers : ServersFilter → Result (List Server)
  pub servers_countries : Result (List Country)

-- The daemon's settings and cached data that a selection reads.
pub record Criteria : Type 0 where
  pub countries : List Country
  pub servers : List Server
  pub technology : Technology
  pub protocol : Protocol
  pub obfuscated : Bool
  pub tag : Text
  pub group_flag : Text
  pub allow_virtual_server : Bool

abbrev pub is_empty {ℓ} : {A : Type ℓ} → List A → Bool
is_empty [] = true
is_empty (x ∷ xs) = false

unfoldable pub resolve_server_group : Text → Text → Result ServerGroup
resolve_server_group flag tag =
    let tag_group = group_convert tag in
    let flag_group = group_convert flag in
    if not (tag_group == Group.undefined) && not (flag_group == Group.undefined)
    then err double_group
    else if not (is_empty flag)
    then (if flag_group == Group.undefined then err group_does_not_exist else ok flag_group)
    else ok tag_group

unfoldable pub tech_to_server_tech : Technology → Protocol → Bool → ℕ
tech_to_server_tech nordlynx proto obfuscated = ServerTechnology.wireguard
tech_to_server_tech openvpn tcp obfuscated =
    if obfuscated then ServerTechnology.openvpn_tcp_obfuscated else ServerTechnology.openvpn_tcp
tech_to_server_tech openvpn udp obfuscated =
    if obfuscated then ServerTechnology.openvpn_udp_obfuscated else ServerTechnology.openvpn_udp
tech_to_server_tech openvpn unknown_protocol obfuscated = ServerTechnology.unknown
tech_to_server_tech unknown_technology proto obfuscated = ServerTechnology.unknown

abbrev default_group : Bool → ServerGroup
default_group obfuscated = if obfuscated then Group.obfuscated else Group.standard_vpn_servers

unfoldable pub select_filter : Text → ServerGroup → Bool → Server → Bool
unfolding by_group
select_filter tag group obfuscated s =
    if not (is_empty tag) && not (group == Group.undefined)
    then contains_func (by_group group) s.groups && contains s.keys tag
    else if not (group == Group.undefined)
    then contains_func (by_group group) s.groups
    else if not (is_empty tag)
    then contains s.keys tag
    else contains_func (by_group (default_group obfuscated)) s.groups

unfoldable pub can_connect : Criteria → ServerGroup → Server → Bool
unfolding select_filter
can_connect c group s =
    is_connectable_with_protocol c.technology c.protocol s
    && is_obfuscated s == c.obfuscated
    && select_filter c.tag group c.obfuscated s

unfoldable pub filter_servers : Criteria → ServerGroup → Result (List Server)
filter_servers c group =
    let found = filter (can_connect c group) c.servers in
    if is_empty found then err server_is_unavailable else ok found

unfoldable pub is_dedicated_ip : Server → Bool
unfolding by_group
is_dedicated_ip s = contains_func (by_group Group.dedicated_ip) s.groups

-- the single server of the API, if it can be connected to
supported : Criteria → Server → Result (List Server)
supported c s =
    if is_connectable_with_protocol c.technology c.protocol s && is_obfuscated s == c.obfuscated
    then ok (s ∷ [])
    else err server_is_unavailable

unfoldable pub get_specific_server_remote : Api → Criteria → ServerTag → Result (List Server)
unfolding supported
get_specific_server_remote api c tag = elim (api.server tag.id) [
  | err e ↦ err e
  | ok s ↦ supported c s
]

non_empty : List Server → Result (List Server)
non_empty servers = if is_empty servers then err other else ok servers

unfoldable pub get_servers_remote :
    Api → Criteria → ServerTag → ServerGroup → ℕ → Result (List Server)
unfolding tech_to_server_tech non_empty
get_servers_remote api c tag group count =
    let tech = tech_to_server_tech c.technology c.protocol c.obfuscated in
    let limit = if not (count == 1) then count else 20 in
    let group' = if group == Group.undefined && c.obfuscated then Group.obfuscated else group in
    if tech == ServerTechnology.unknown
    then err other
    else elim (api.recommended_servers
        (record { limit = limit; tech = tech; group = group'; tag = tag })) [
          | err e ↦ err e
          | ok servers ↦ non_empty servers
        ]

abbrev pub is_by_name : ServerBy → Bool
is_by_name by_name = true
is_by_name _ = false

-- What `serverTagFromString` returns: the tag, which is the zero tag beside an error, and the error.
pub record TagResult : Type 0 where
  pub tag : ServerTag
  pub error : Option Err

abbrev zero_tag : ServerTag
zero_tag = record { action = by_unknown; id = pos 0 }

abbrev found_tag : ServerTag → TagResult
found_tag t = record { tag = t; error = none }

abbrev tag_error : Err → TagResult
tag_error e = record { tag = zero_tag; error = some e }

module _ (equal_fold : Text → Text → Bool) (api : Api) where
  -- the part of `serverTagFromString` behind the countries
  tag_in_countries : Text → List Server → List Country → TagResult
  unfolding server_location_tag_from_string before_dot matches_tag
  tag_in_countries tag servers countries =
      elim (server_location_tag_from_string equal_fold tag countries) [
        | some location ↦ found_tag location
        | none ↦ elim (find (λ s. equal_fold tag (before_dot s.hostname)) servers) [
          | some s ↦ found_tag (record { action = by_name; id = s.id })
          | none ↦ if not (matches_tag tag) then tag_error tag_does_not_exist else tag_error other
        ]
      ]

  unfoldable pub server_tag_from_string : Criteria → ServerGroup → Bool → TagResult
  unfolding tag_in_countries
  server_tag_from_string c group is_group_flag_set =
      let tag = if equal_fold c.tag (codes "uk") then codes "gb" else c.tag in
      if is_empty c.tag
      then found_tag zero_tag
      else if not (group == Group.undefined) && not is_group_flag_set
      then found_tag (record { action = by_speed; id = pos group })
      else if is_empty c.countries
      then elim api.servers_countries [
        | err e ↦ tag_error e
        | ok countries ↦ tag_in_countries tag c.servers countries
      ]
      else tag_in_countries tag c.servers c.countries

  tagged_servers : Criteria → ServerGroup → ℕ → ServerTag → Result (List Server)
  unfolding get_specific_server_remote get_servers_remote
  tagged_servers c group count t =
      if is_by_name t.action
      then get_specific_server_remote api c t
      else get_servers_remote api c t group count

  unfoldable pub from_remote : Criteria → ServerGroup → ℕ → TagResult → Result (List Server)
  unfolding tagged_servers
  from_remote c group count r = elim r.error [
    | some e ↦ err e
    | none ↦ tagged_servers c group count r.tag
  ]

-- The cached servers that fit. Dedicated IP servers are dropped if no server was asked for by name
-- and there are several.
unfoldable pub from_cache : Criteria → ServerGroup → ServerTag → Result (List Server)
unfolding filter_servers is_dedicated_ip
from_cache c group t = elim (filter_servers c group) [
  | err e ↦ err e
  | ok found ↦
      if not (is_by_name t.action) && ltb 1 (length found)
      then ok (filter (λ s. not (is_dedicated_ip s)) found)
      else ok found
]

-- `choose n` is the random number below n
pick_one : (ℕ → ℕ) → List Server → List Server
pick_one choose servers = elim (get_elem? servers (choose (length servers))) [
  | none ↦ []
  | some s ↦ s ∷ []
]

deliver_chosen : (ℕ → ℕ) → ℕ → List Server → Bool → Result (List Server × Bool)
unfolding pick_one
deliver_chosen choose count servers remote =
    ok (if count == 1 && not (is_empty servers) then pick_one choose servers else servers, remote)

-- the end of `getServers`, from the test of `allowVirtualServer`
unfoldable pub deliver : (ℕ → ℕ) → Bool → ℕ → List Server → Bool → Result (List Server × Bool)
unfolding deliver_chosen
deliver choose allow_virtual count servers remote =
    let physical = filter (λ s. not (is_virtual_location s)) servers in
    if not allow_virtual && not (is_empty servers)
    then (if is_empty physical
        then err virtual_server_selected
        else deliver_chosen choose count physical remote)
    else deliver_chosen choose count servers remote

abbrev pub is_missing_tag : Option Err → Bool
is_missing_tag (some tag_does_not_exist) = true
is_missing_tag _ = false

pub data Picked : Type 0 where
  picked : Server → Bool → Picked
  failed : Err → Picked
  -- rand.Intn(0)
  panicked : Picked

module _ (equal_fold : Text → Text → Bool) (api : Api) (choose : ℕ → ℕ) where
  pub cached_if_failed :
      Criteria → ServerGroup → ServerTag → ℕ → Result (List Server) → Result (List Server × Bool)
  unfolding deliver from_cache
  cached_if_failed c group t count (ok servers) =
      deliver choose c.allow_virtual_server count servers true
  cached_if_failed c group t count (err _) = elim (from_cache c group t) [
    | err e ↦ err e
    | ok servers ↦ deliver choose c.allow_virtual_server count servers false
  ]

  unfoldable pub get_servers_in_group : Criteria → ServerGroup → ℕ → Result (List Server × Bool)
  unfolding server_tag_from_string from_remote cached_if_failed
  get_servers_in_group c group count =
      let t = server_tag_from_string equal_fold api c group (not (is_empty c.group_flag)) in
      if is_missing_tag t.error
      then err tag_does_not_exist
      else cached_if_failed c group t.tag count (from_remote equal_fold api c group count t)

  unfoldable pub get_servers : Criteria → ℕ → Result (List Server × Bool)
  unfolding get_servers_in_group resolve_server_group
  get_servers c count = elim (resolve_server_group c.group_flag c.tag) [
    | err e ↦ err e
    | ok group ↦
        if group == Group.dedicated_ip
        then err dedicated_ip_server
        else get_servers_in_group c group count
  ]

  -- `choose_again` is the second random choice, among the servers returned
  picked_of : (ℕ → ℕ) → Result (List Server × Bool) → Picked
  picked_of choose_again (err e) = failed e
  picked_of choose_again (ok (servers, remote)) =
      elim (get_elem? servers (choose_again (length servers))) [
        | none ↦ panicked
        | some s ↦ picked s remote
      ]

  unfoldable pub pick_server : (ℕ → ℕ) → Criteria → Picked
  unfolding get_servers picked_of
  pick_server choose_again c = picked_of choose_again (get_servers c 1)
