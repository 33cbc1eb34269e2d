-- ===== src/Routes/Policies.antt =====
-- Turning policy based routing on and off: `PolicyRouter` of daemon/routes/rule.go.
pub mod Following
use nordvpn_linux.Prelude.{
  Bool, true, false, not, ◌&&◌, List, String, Option, none, some, if◌then◌else◌,
}

-- the arguments of SetupRoutingRules
pub record RoutingRules : Type 0 where
  pub ipv6 : Bool
  pub enable_local : Bool
  pub lan_discovery : Bool
  pub allow_subnets : List String

-- The errors of the working agent, and what it leaves in the system after an error. The other agent does
-- nothing and never fails.
pub record PolicyAgent : Type 0 where
  pub setup_fails : RoutingRules → Bool
  pub setup_leaves : RoutingRules → Option RoutingRules → Option RoutingRules
  pub cleanup_fails : Bool
  pub cleanup_leaves : Option RoutingRules → Option RoutingRules

-- `PolicyRouter`, which uses the working agent exactly if it is enabled. `installed` is what that agent
-- has set up in the system and not cleaned up.
pub record PolicyRouter : Type 0 where
  pub applied_rule : Option RoutingRules
  pub is_enabled : Bool
  pub installed : Option RoutingRules

-- Every method returns the absence of an error, and the router.
unfoldable pub setup_routing : PolicyAgent → RoutingRules → PolicyRouter → Bool × PolicyRouter
setup_routing agent rules p =
    if p.is_enabled && agent.setup_fails rules
    then (false, record p { installed = agent.setup_leaves rules p.installed })
    else (
      true,
      record p {
        applied_rule = some rules;
        installed = if p.is_enabled then some rules else p.installed;
      },
    )

unfoldable pub cleanup : PolicyAgent → PolicyRouter → Bool × PolicyRouter
cleanup agent p =
    if p.is_enabled && agent.cleanup_fails
    then (false, record p { installed = agent.cleanup_leaves p.installed })
    else (
      true,
      record p { applied_rule = none; installed = if p.is_enabled then none else p.installed },
    )

-- `Enable` of a router that is not enabled
abbrev set_up_again : PolicyAgent → Option RoutingRules → PolicyRouter → Bool × PolicyRouter
set_up_again agent none p = (true, record p { is_enabled = true })
set_up_again agent (some rules) p =
    if agent.setup_fails rules
    then (false, record p { installed = agent.setup_leaves rules p.installed })
    else (true, record p { is_enabled = true; installed = some rules })

unfoldable pub enable : PolicyAgent → PolicyRouter → Bool × PolicyRouter
enable agent p = if p.is_enabled then (true, p) else set_up_again agent p.applied_rule p

unfoldable pub disable : PolicyAgent → PolicyRouter → Bool × PolicyRouter
disable agent p =
    if not p.is_enabled
    then (true, p)
    else if agent.cleanup_fails
    then (false, record p { installed = agent.cleanup_leaves p.installed })
    else (true, record p { is_enabled = false; installed = none })

pub data PolicyChange : Type 0 where
  set_up : RoutingRules → PolicyChange
  clean_up turn_on turn_off : PolicyChange

unfoldable pub change_policy : PolicyAgent → PolicyChange → PolicyRouter → Bool × PolicyRouter
unfolding setup_routing cleanup enable disable
change_policy agent (set_up rules) p = setup_routing agent rules p
change_policy agent clean_up p = cleanup agent p
change_policy agent turn_on p = enable agent p
change_policy agent turn_off p = disable agent p
