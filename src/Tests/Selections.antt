-- ===== src/Tests/Selections.antt =====
-- Examples of server selections.
use nordvpn_linux.Prelude.{
  contains_func, text_beq, ℕ, ◌<◌, ℤ, pos, int_eq, text_eq, Bool, true, false, ◌==◌, none, List, [],
  ◌∷◌, All, contains, filter, find, length, Text, codes, ◌≡◌, refl, arith,
}
use nordvpn_linux.Config.{openvpn, nordlynx, udp}
use nordvpn_linux.Config.Group
use nordvpn_linux.Config.Group.{ServerGroup}
use nordvpn_linux.Servers.{
  Server, ServedGroup, online, is_virtual_location, is_connectable_via,
  is_connectable_with_protocol, is_obfuscated,
}
use nordvpn_linux.Servers.ServerTechnology
use nordvpn_linux.Servers.Names.{snake_case, group_convert}
use nordvpn_linux.Servers.Select.{
  other, ok, err, Api, Criteria, resolve_server_group, can_connect, is_dedicated_ip, get_servers,
  picked, panicked, pick_server, tech_to_server_tech,
}
use nordvpn_linux.Servers.Select.Safety.{get_servers-cached_can_connect, get_servers-IsPhysical}
use nordvpn_linux.Servers.Select.Panic.{InRange, pick_server-panicked}
use nordvpn_linux.Servers.Select.Technologies.{tech_to_server_tech-connectable}
use nordvpn_linux.Servers.Dedicated.{
  no_server_selected, is_any_dip_servers_available, Surroundings, select_server,
}
use nordvpn_linux.Servers.Dedicated.Entitled.{select_server-Entitled}

snake_case_europe : snake_case (codes "The Americas!") ≡ codes "the_americas"
unfolding snake_case
snake_case_europe = refl

group_convert-p2p : group_convert (codes "P2P") ≡ Group.p2p
unfolding group_convert text_beq
group_convert-p2p = refl

abbrev same_text : Text → Text → Bool
same_text a b = a == b

abbrev first : ℕ → ℕ
first n = 0

first-InRange : InRange first
first-InRange n h = h

abbrev in_groups : ℤ → List ServedGroup → Server
in_groups id groups = record {
  id = id;
  hostname = codes "us1.nordvpn.com";
  status = online;
  technologies = record { id = ServerTechnology.wireguard; status = online } ∷ [];
  groups = groups;
  specifications = [];
  keys = codes "us" ∷ [];
}

abbrev standard : ServedGroup
standard = record { id = Group.standard_vpn_servers; title = codes "Standard VPN servers" }

abbrev plain_server : Server
plain_server = in_groups (pos 1) (standard ∷ [])

abbrev dedicated_server : ℤ → Server
dedicated_server id =
    in_groups id (standard ∷ record { id = Group.dedicated_ip; title = codes "Dedicated IP" } ∷ [])

-- the API of a machine without a network
abbrev no_api : Api
no_api = record {
  server = λ id. err other;
  recommended_servers = λ f. err other;
  servers_countries = err other;
}

abbrev among : List Server → Criteria
among servers = record {
  countries = [];
  servers = servers;
  technology = nordlynx;
  protocol = udp;
  obfuscated = false;
  tag = [];
  group_flag = [];
  allow_virtual_server = false;
}

plain_selected :
    get_servers same_text no_api first (among (plain_server ∷ [])) 1 ≡ ok (plain_server ∷ [], false)
unfolding get_servers group_convert text_beq filter can_connect is_connectable_with_protocol
    is_obfuscated contains_func is_virtual_location
plain_selected = refl

get_servers-cached_can_connect_example :
    (group : ServerGroup) × (resolve_server_group [] [] ≡ ok group)
    × All (λ s. can_connect (among (plain_server ∷ [])) group s ≡ true) (plain_server ∷ [])
get_servers-cached_can_connect_example =
    get_servers-cached_can_connect same_text no_api first (among (plain_server ∷ [])) 1
      (plain_server ∷ []) plain_selected

get_servers-IsPhysical_example : All (λ s. is_virtual_location s ≡ false) (plain_server ∷ [])
get_servers-IsPhysical_example =
    get_servers-IsPhysical same_text no_api first (among (plain_server ∷ [])) 1 (plain_server ∷ [])
      false refl plain_selected

abbrev two_dedicated : Criteria
two_dedicated = among (dedicated_server (pos 1) ∷ dedicated_server (pos 2) ∷ [])

two_dedicated-several :
    1 < length (filter (can_connect two_dedicated Group.undefined) two_dedicated.servers)
unfolding can_connect filter is_connectable_with_protocol text_beq is_obfuscated contains_func
two_dedicated-several = omega arith

two_dedicated-dedicated :
    All
      (λ s. is_dedicated_ip s ≡ true)
      (filter (can_connect two_dedicated Group.undefined) two_dedicated.servers)
unfolding can_connect filter is_dedicated_ip is_connectable_with_protocol text_beq is_obfuscated
    contains_func
two_dedicated-dedicated = (refl, (refl, tt))

two_dedicated-resolved : resolve_server_group [] [] ≡ ok Group.undefined
unfolding resolve_server_group group_convert text_beq
two_dedicated-resolved = refl

two_dedicated-panics : pick_server same_text no_api first first two_dedicated ≡ panicked
unfolding pick_server group_convert text_beq filter can_connect is_connectable_with_protocol
    is_obfuscated contains_func
two_dedicated-panics = refl

pick_server-panicked_example :
    (group : ServerGroup) × (resolve_server_group [] [] ≡ ok group)
    × (1 < length (filter (can_connect two_dedicated group) two_dedicated.servers))
    × All
        (λ s. is_dedicated_ip s ≡ true)
        (filter (can_connect two_dedicated group) two_dedicated.servers)
pick_server-panicked_example =
    pick_server-panicked same_text no_api first first two_dedicated first-InRange first-InRange
      two_dedicated-panics

-- a server of both obfuscated technologies
abbrev hidden_server : Server
hidden_server = record plain_server {
  technologies =
      record { id = ServerTechnology.openvpn_udp_obfuscated; status = online }
      ∷ record { id = ServerTechnology.openvpn_tcp_obfuscated; status = online }
      ∷ [];
}

tech_to_server_tech-connectable_example :
    let asked = tech_to_server_tech openvpn udp true in
    (is_connectable_via asked hidden_server ≡ true
      → is_connectable_with_protocol openvpn udp hidden_server ≡ true)
    × (openvpn ≡ openvpn
        → true ≡ true
        → is_obfuscated hidden_server ≡ true
        → is_connectable_via asked hidden_server ≡ true)
    × (true ≡ false
        → is_connectable_via ServerTechnology.openvpn_udp_obfuscated hidden_server ≡ false
        → is_connectable_via ServerTechnology.openvpn_tcp_obfuscated hidden_server ≡ false
        → is_connectable_with_protocol openvpn udp hidden_server ≡ true
        → is_connectable_via asked hidden_server ≡ true)
unfolding tech_to_server_tech
tech_to_server_tech-connectable_example =
    tech_to_server_tech-connectable openvpn udp true hidden_server (ground arith)

-- the user owns the dedicated IP server 7, the only one that the daemon knows
abbrev owner : Surroundings
owner = record {
  equal_fold = same_text;
  api = no_api;
  choose = first;
  choose_again = first;
  choose_service = first;
  services_to_choose = ok (pos 7 ∷ []);
  services_to_check = ok (pos 7 ∷ []);
  logged_out = true;
}

abbrev owned : Criteria
owned = among (dedicated_server (pos 7) ∷ [])

owned_selected : select_server owner owned ≡ picked (dedicated_server (pos 7)) false
unfolding select_server group_convert text_beq filter can_connect is_connectable_with_protocol
    is_obfuscated contains_func is_virtual_location
owned_selected = refl

owned_dedicated : is_dedicated_ip (dedicated_server (pos 7)) ≡ true
unfolding is_dedicated_ip contains_func
owned_dedicated = refl

select_server-Entitled_example :
    (ids : List ℤ) × (owner.services_to_check ≡ ok ids)
    × (contains ids (pos 7) ≡ true)
    × (is_connectable_with_protocol nordlynx udp (dedicated_server (pos 7)) ≡ true)
    × (is_obfuscated (dedicated_server (pos 7)) ≡ false)
select_server-Entitled_example =
    select_server-Entitled owner owned (dedicated_server (pos 7)) false owned_selected
      owned_dedicated

abbrev half_selected : List ℤ
half_selected = no_server_selected ∷ pos 7 ∷ []

half_selected-available : is_any_dip_servers_available half_selected ≡ true
unfolding is_any_dip_servers_available contains_func
half_selected-available = refl

unselected_unknown :
    find (λ (s : Server). s.id == no_server_selected) (dedicated_server (pos 7) ∷ []) ≡ none
unfolding find
unselected_unknown = refl
