-- ===== src/Routes/Policies/Following.antt =====
-- What the system has follows what the router of policies remembers.
use nordvpn_linux.Prelude.{true, false, none, if◌then◌else◌, ◌≡◌, arith}
use nordvpn_linux.Routes.Policies.{
  PolicyAgent, PolicyRouter, PolicyChange, set_up, clean_up, turn_on, turn_off, change_policy,
}

-- the rule is set up in the system exactly while the router is enabled
abbrev pub IsFollowing : PolicyRouter → Type 0
IsFollowing p = p.installed ≡ (if p.is_enabled then p.applied_rule else none)

-- Every method of the router that succeeds leaves the system with the rule that the router remembers
-- while it is enabled, and with none while it is disabled, where that was so before. One that fails
-- leaves the router as it was, its rule and whether it is enabled.
pub change_policy-IsFollowing :
    (agent : PolicyAgent) (c : PolicyChange) (p : PolicyRouter)
    → IsFollowing p
    → let r = change_policy agent c p in
      (r.0 ≡ true → IsFollowing r.1)
      × (r.0 ≡ false → (r.1.applied_rule ≡ p.applied_rule) × (r.1.is_enabled ≡ p.is_enabled))
unfolding change_policy
change_policy-IsFollowing agent (set_up rules) p h = (λ e. ground arith, λ e. ground arith)
change_policy-IsFollowing agent clean_up p h = (λ e. ground arith, λ e. ground arith)
change_policy-IsFollowing agent turn_on p h = (λ e. ground arith, λ e. ground arith)
change_policy-IsFollowing agent turn_off p h = (λ e. ground arith, λ e. ground arith)
