-- ===== src/Servers/Dedicated/Entitled.antt =====
-- A dedicated IP server is only selected for a user who has it.
use nordvpn_linux.Prelude.{
  ℕ, ℤ, int_eq, Bool, true, ◌==◌, none, some, List, [], ◌∷◌, contains_func, contains, find, length,
  get_elem?, Bool-cases, inl, inr, ◌≡◌, refl, arith,
}
use nordvpn_linux.Servers.{Server, is_connectable_with_protocol, is_obfuscated}
use nordvpn_linux.Servers.Select.{
  Result, ok, err, server_is_unavailable, Criteria, is_dedicated_ip, Picked, picked, failed,
}
use nordvpn_linux.Servers.Dedicated.{
  check_dedicated, check_server, Surroundings, select_server, get_server_by_id,
  select_dedicated_ip_server, is_any_dip_servers_available, no_server_selected,
}

contains_func-contains : (ids : List ℤ) (a : ℤ) → contains_func (λ id. id == a) ids ≡ contains ids a
unfolding contains_func contains
contains_func-contains [] a = refl
contains_func-contains (i ∷ ids) a = ground (arith, contains_func-contains ids a)

-- what the tests let through
Entitled : Criteria → Result (List ℤ) → Server → Type 0
Entitled c services s =
    (ids : List ℤ) × (services ≡ ok ids)
    × (contains ids s.id ≡ true)
    × (is_connectable_with_protocol c.technology c.protocol s ≡ true)
    × (is_obfuscated s ≡ c.obfuscated)

check_dedicated-picked :
    (c : Criteria) (s : Server) (remote : Bool) (services : Result (List ℤ)) (t : Server) (r : Bool)
    → check_dedicated c s remote services ≡ picked t r
    → Entitled c services t
unfolding check_dedicated Entitled
check_dedicated-picked c s remote (err _) t r e = cc
check_dedicated-picked c s remote (ok ids) t r e =
    (ids, refl, ground (arith, contains_func-contains ids s.id), ground arith, ground arith)

check_server-picked :
    (c : Criteria) (services : Result (List ℤ)) (p : Picked) (t : Server) (r : Bool)
    → check_server c services p ≡ picked t r
    → is_dedicated_ip t ≡ true
    → Entitled c services t
unfolding check_server
check_server-picked c services (picked s remote) t r e d = elim (Bool-cases (is_dedicated_ip s)) [
  | inl y ↦ check_dedicated-picked c s remote services t r (ground arith)
  | inr n ↦ absurd (ground arith)
]
check_server-picked c services _ t r e d = cc

-- A selected server that is a dedicated IP server belongs to one of the user's services, supports the
-- user's technology and protocol, and has the obfuscation that the user set.
pub select_server-Entitled :
    (env : Surroundings) (c : Criteria) (s : Server) (remote : Bool)
    → select_server env c ≡ picked s remote
    → is_dedicated_ip s ≡ true
    → (ids : List ℤ) × (env.services_to_check ≡ ok ids)
      × (contains ids s.id ≡ true)
      × (is_connectable_with_protocol c.technology c.protocol s ≡ true)
      × (is_obfuscated s ≡ c.obfuscated)
unfolding select_server Entitled
select_server-Entitled env c s remote e d =
    check_server-picked c env.services_to_check _ s remote e d

-- The random choice also falls on services for which the user has selected no server. Then the request
-- is refused as unavailable, although another service has a server.
unselected_service_refused :
    (choose : ℕ → ℕ) (servers : List Server) (services : List ℤ)
    → is_any_dip_servers_available services ≡ true
    → get_elem? services (choose (length services)) ≡ some no_server_selected
    → find (λ s. s.id == no_server_selected) servers ≡ none
    → select_dedicated_ip_server choose (ok services) servers ≡ failed server_is_unavailable
unfolding select_dedicated_ip_server get_server_by_id
unselected_service_refused choose servers [] available chosen absent = cc
unselected_service_refused choose servers (i ∷ is) available chosen absent = ground arith
