-- ===== src/Routes.antt =====
-- Turning routing on and off: daemon/routes/router.go. Devices, gateways and subnets are texts.
pub mod Matching
pub mod Policies
use nordvpn_linux.Prelude.{
  ℕ, Bool, true, false, not, ◌&&◌, List, [], ◌∷◌, ◌++◌, String, if◌then◌else◌, nat_eq, ◌==◌,
}

pub record Route : Type 0 where
  pub gateway : String
  pub subnet : String
  pub device : String
  pub table_id : ℕ

-- The errors of the working agent. A failed flush is taken to remove nothing, although the netlink agent
-- deletes the routes one by one. The other agent does nothing and never fails.
pub record Agent : Type 0 where
  pub add_fails : Route → Bool
  pub flush_fails : Bool

-- `Router`, which uses the working agent exactly if it is enabled. `installed` is what the working agent
-- has put into the system's tables and not flushed.
pub record Router : Type 0 where
  pub applied : List Route
  pub is_enabled : Bool
  pub installed : List Route

-- Every method returns the absence of an error, and the router.
unfoldable pub add : Agent → Route → Router → Bool × Router
add agent route r = if r.is_enabled && agent.add_fails route then (false, r) else (
  true,
  record r {
    applied = r.applied ++ route ∷ [];
    installed = if r.is_enabled then r.installed ++ route ∷ [] else r.installed;
  },
)

unfoldable pub flush : Agent → Router → Bool × Router
flush agent r =
    if r.is_enabled && agent.flush_fails
    then (false, r)
    else (true, record r { applied = []; installed = if r.is_enabled then [] else r.installed })

-- the route in the table that `Enable` is given
unfoldable pub retabled : ℕ → Route → Route
retabled table_id route =
    if route.table_id == 0 then route else record route { table_id = table_id }

-- the loop of `Enable`: the absence of an error, and what is installed
unfoldable pub add_all : Agent → ℕ → List Route → List Route → Bool × List Route
unfolding retabled
add_all agent table_id [] installed = (true, installed)
add_all agent table_id (route ∷ routes) installed =
    let moved = retabled table_id route in
    let rest = add_all agent table_id routes (installed ++ moved ∷ []) in
    if agent.add_fails moved then (false, installed) else rest

unfoldable pub enable : Agent → ℕ → Router → Bool × Router
unfolding add_all
enable agent table_id r =
    let (added, installed) = add_all agent table_id r.applied r.installed in
    if r.is_enabled
    then (true, r)
    else (added, record r { is_enabled = added; installed = installed })

unfoldable pub disable : Agent → Router → Bool × Router
disable agent r =
    if not r.is_enabled
    then (true, r)
    else if agent.flush_fails
    then (false, r)
    else (true, record r { is_enabled = false; installed = [] })

pub data Change : Type 0 where
  add_route : Route → Change
  flush_routes disable_routes : Change
  enable_routes : ℕ → Change

unfoldable pub change : Agent → Change → Router → Bool × Router
unfolding add flush enable disable
change agent (add_route route) r = add agent route r
change agent flush_routes r = flush agent r
change agent disable_routes r = disable agent r
change agent (enable_routes table_id) r = enable agent table_id r
