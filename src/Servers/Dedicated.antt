-- ===== src/Servers/Dedicated.antt =====
-- Dedicated IP servers and the whole selection for a request: `selectServer` of daemon/servers.go.
pub mod Entitled
use nordvpn_linux.Prelude.{
  ℕ, ℤ, negsuc, int_eq, Bool, true, false, ◌&&◌, ◌||◌, not, ◌==◌, bool_eq, Option, none, some, List,
  [], ◌∷◌, Text, contains_func, contains, find, if◌then◌else◌, length, get_elem?,
}
use nordvpn_linux.Servers.{Server, is_connectable_with_protocol, is_obfuscated}
use nordvpn_linux.Servers.Select.{
  Err, double_group, group_does_not_exist, tag_does_not_exist, server_is_unavailable,
  virtual_server_selected, dedicated_ip_server, unauthorized, not_logged_in, unhandled, other,
  dedicated_ip_renew_error, dedicated_ip_service_but_no_servers, dedicated_ip_no_server, Result, ok,
  err, Api, Criteria, is_empty, is_dedicated_ip, Picked, picked, failed, panicked, pick_server,
}

-- auth.NoServerSelected
abbrev pub no_server_selected : ℤ
no_server_selected = negsuc 0

-- The services are the server identifiers that they carry.
unfoldable pub is_any_dip_servers_available : List ℤ → Bool
is_any_dip_servers_available services =
    contains_func (λ id. not (id == no_server_selected)) services

unfoldable pub get_server_by_id : List Server → ℤ → Result Server
get_server_by_id servers id = elim (find (λ s. s.id == id) servers) [
  | none ↦ err other
  | some s ↦ ok s
]

-- `choose n` is the random number below n
chosen_service : (ℕ → ℕ) → List Server → List ℤ → Picked
unfolding get_server_by_id
chosen_service choose servers services = elim (get_elem? services (choose (length services))) [
  | none ↦ panicked
  | some id ↦ elim (get_server_by_id servers id) [
    | err _ ↦ failed server_is_unavailable
    | ok s ↦ picked s false
  ]
]

unfoldable pub select_dedicated_ip_server : (ℕ → ℕ) → Result (List ℤ) → List Server → Picked
unfolding is_any_dip_servers_available chosen_service
select_dedicated_ip_server choose (err _) servers = failed unhandled
select_dedicated_ip_server choose (ok services) servers =
    if is_empty services
    then failed dedicated_ip_renew_error
    else if not (is_any_dip_servers_available services)
    then failed dedicated_ip_service_but_no_servers
    else chosen_service choose servers services

-- the tests of a dedicated IP server, against the services
check_dedicated : Criteria → Server → Bool → Result (List ℤ) → Picked
unfolding is_any_dip_servers_available
check_dedicated c s remote (err _) = failed unhandled
check_dedicated c s remote (ok services) =
    if is_empty services
    then failed dedicated_ip_renew_error
    else if not (is_any_dip_servers_available services)
    then failed dedicated_ip_service_but_no_servers
    else if not (contains_func (λ id. id == s.id) services)
    then failed dedicated_ip_no_server
    else if not (is_connectable_with_protocol c.technology c.protocol s)
        || not (is_obfuscated s == c.obfuscated)
    then failed server_is_unavailable
    else picked s remote

check_server : Criteria → Result (List ℤ) → Picked → Picked
unfolding check_dedicated is_dedicated_ip
check_server c services (picked s remote) =
    if is_dedicated_ip s then check_dedicated c s remote services else picked s remote
check_server c services (failed e) = failed e
check_server c services panicked = panicked

-- the `switch` on the error of `PickServer`; `logged_out` is the absence of an error of the logout that
-- is saved
on_pick_error : Bool → Picked → Err → Picked
on_pick_error logged_out dip unauthorized =
    if logged_out then failed not_logged_in else failed other
on_pick_error logged_out dip tag_does_not_exist = failed tag_does_not_exist
on_pick_error logged_out dip group_does_not_exist = failed group_does_not_exist
on_pick_error logged_out dip server_is_unavailable = failed server_is_unavailable
on_pick_error logged_out dip double_group = failed double_group
on_pick_error logged_out dip virtual_server_selected = failed virtual_server_selected
on_pick_error logged_out dip dedicated_ip_server = dip
on_pick_error logged_out dip _ = failed unhandled

after_pick : Bool → Picked → Picked → Picked
unfolding on_pick_error
after_pick logged_out dip (picked s remote) = picked s remote
after_pick logged_out dip (failed e) = on_pick_error logged_out dip e
after_pick logged_out dip panicked = panicked

-- The daemon's collaborators in one selection. The services are fetched once for the choice of a
-- dedicated IP server, and once more for its tests.
pub record Surroundings : Type 0 where
  pub equal_fold : Text → Text → Bool
  pub api : Api
  pub choose : ℕ → ℕ
  pub choose_again : ℕ → ℕ
  pub choose_service : ℕ → ℕ
  pub services_to_choose : Result (List ℤ)
  pub services_to_check : Result (List ℤ)
  pub logged_out : Bool

unfoldable pub select_server : Surroundings → Criteria → Picked
unfolding after_pick check_server select_dedicated_ip_server pick_server
select_server env c = check_server c env.services_to_check (
    after_pick env.logged_out
      (select_dedicated_ip_server env.choose_service env.services_to_choose c.servers)
      (pick_server env.equal_fold env.api env.choose env.choose_again c))
