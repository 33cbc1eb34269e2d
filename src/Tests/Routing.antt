-- ===== src/Tests/Routing.antt =====
-- Examples of turning routing on and off.
use nordvpn_linux.Prelude.{
  ℕ, map, some, none, true, false, [], ◌∷◌, ◌⊎◌, ◌==◌, string_eq, ◌≡◌, refl, arith,
}
use nordvpn_linux.Routes.{Route, Agent, Router, enable_routes, change}
use nordvpn_linux.Routes.Policies.{RoutingRules, PolicyAgent, PolicyRouter, turn_on, change_policy}
use nordvpn_linux.Routes.Policies.Following.{IsFollowing, change_policy-IsFollowing}
use nordvpn_linux.Routes.Matching.{IsMatching, moved_to, change-IsMatching}

abbrev home : Route
home = record { gateway = "10.5.0.1"; subnet = "0.0.0.0/1"; device = "nordlynx"; table_id = 205 }

abbrev server : Route
server = record { gateway = "192.168.1.1"; subnet = "5.6.7.8/32"; device = "eth0"; table_id = 205 }

abbrev stopped : Router
stopped = record { applied = home ∷ server ∷ []; is_enabled = false; installed = [] }

abbrev willing : Agent
willing = record { add_fails = λ r. false; flush_fails = false }

stopped-IsMatching : IsMatching stopped
unfolding IsMatching
stopped-IsMatching = (λ e. ground arith, λ e. refl)

change-IsMatching_example :
    ((change willing (enable_routes 206) stopped).0 ≡ true
      → IsMatching (change willing (enable_routes 206) stopped).1)
    × ((table_id : ℕ)
        → enable_routes 206 ≡ enable_routes table_id
        → stopped.is_enabled ≡ false
        → (change willing (enable_routes 206) stopped).0 ≡ true
        → (change willing (enable_routes 206) stopped).1.installed
          ≡ map (moved_to table_id) stopped.applied)
    × ((change willing (enable_routes 206) stopped).0 ≡ false
        → ((change willing (enable_routes 206) stopped).1 ≡ stopped)
          ⊎ (table_id : ℕ) × (enable_routes 206 ≡ enable_routes table_id))
change-IsMatching_example =
    change-IsMatching willing (enable_routes 206) stopped refl stopped-IsMatching

-- the route over the first network card is refused
abbrev picky : Agent
picky = record { add_fails = λ r. r.device == "eth0"; flush_fails = false }

abbrev local_rules : RoutingRules
local_rules = record {
  ipv6 = false;
  enable_local = true;
  lan_discovery = false;
  allow_subnets = "10.0.0.0/8" ∷ [];
}

abbrev steady : PolicyAgent
steady = record {
  setup_fails = λ r. false;
  setup_leaves = λ r before. before;
  cleanup_fails = false;
  cleanup_leaves = λ before. before;
}

abbrev waiting : PolicyRouter
waiting = record { applied_rule = some local_rules; is_enabled = false; installed = none }

change_policy-IsFollowing_example :
    let r = change_policy steady turn_on waiting in
    (r.0 ≡ true → IsFollowing r.1)
    × (r.0 ≡ false → (r.1.applied_rule ≡ some local_rules) × (r.1.is_enabled ≡ false))
change_policy-IsFollowing_example = change_policy-IsFollowing steady turn_on waiting refl
