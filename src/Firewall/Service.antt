-- ===== src/Firewall/Service.antt =====
-- The firewall that swaps a working agent for one that does nothing: daemon/firewall/firewall.go.
pub mod Tracking
pub mod Stuck
use nordvpn_linux.Prelude.{
  ℕ, zero, suc, string_eq, Bool, true, false, not, ◌==◌, if◌then◌else◌, List, [], ◌∷◌, ◌++◌, String,
  Option, none, some,
}
use nordvpn_linux.Prelude.Action.{Action, succeed, fail, update, reading, ◌>>◌, when, for_each}
use nordvpn_linux.Firewall.{Rule, equal}
use nordvpn_linux.Firewall.OrderedRules
use nordvpn_linux.Firewall.OrderedRules.{
  FirewallError, rule_not_found, rule_already_exists, rule_without_name, already_enabled,
  already_disabled, agent, delete_first,
}

-- The failures of the working agent, by the number of times that it was asked before. A failed call is
-- taken to leave nothing behind, although the iptables agent runs several commands for a rule. The other agent
-- does nothing and never fails (daemon/firewall/notables/notables.go).
pub record Agent : Type 0 where
  pub add_fails : ℕ → Rule → Bool
  pub delete_fails : ℕ → Rule → Bool

-- `Firewall`: the current agent is the working one exactly if the firewall is enabled. `installed` is
-- what the working agent has added and not deleted.
pub record Firewall : Type 0 where
  pub rules : List Rule
  pub enabled : Bool
  pub installed : List Rule
  pub asked : ℕ

abbrev pub Method : Type 0
Method = Action FirewallError Firewall

module _ (a : Agent) where
  unfoldable pub working_add : Rule → Method
  working_add rule fw =
      if a.add_fails fw.asked rule
      then (some agent, record fw { asked = suc fw.asked })
      else (none, record fw { asked = suc fw.asked; installed = fw.installed ++ rule ∷ [] })

  unfoldable pub working_delete : Rule → Method
  working_delete rule fw =
      if a.delete_fails fw.asked rule then (some agent, record fw { asked = suc fw.asked }) else (
        none,
        record fw {
          asked = suc fw.asked;
          installed = delete_first (λ r. equal r rule) fw.installed;
        },
      )

  -- fw.current.Add and fw.current.Delete
  current_add : Rule → Method
  current_add rule fw = if fw.enabled then working_add rule fw else (none, fw)

  current_delete : Rule → Method
  current_delete rule fw = if fw.enabled then working_delete rule fw else (none, fw)

  -- fw.rules.Add and fw.rules.Delete
  remember : Rule → Method
  unfolding OrderedRules.add
  remember rule fw =
      let (r, rules) = OrderedRules.add rule fw.rules in (r, record fw { rules = rules })

  forget : String → Method
  unfolding OrderedRules.delete
  forget name fw =
      let (r, rules) = OrderedRules.delete name fw.rules in (r, record fw { rules = rules })

  -- what follows the checks in the loop of `Add`
  pub add_checked : Option Rule → Rule → Method
  unfolding current_add current_delete remember
  add_checked none rule = do current_add rule; remember rule
  add_checked (some existing) rule =
      if equal existing rule
      then fail rule_already_exists
      else do current_add rule; remember rule; current_delete existing

  unfoldable pub add_rule : Rule → Method
  unfolding add_checked OrderedRules.get
  add_rule rule =
      if rule.name == ""
      then fail rule_without_name
      else reading λ fw. add_checked (OrderedRules.get rule.name fw.rules) rule

  unfoldable pub add : List Rule → Method
  unfolding add_rule
  add rules = for_each add_rule rules

  pub delete_found : Option Rule → Method
  unfolding current_delete forget
  delete_found none = fail rule_not_found
  delete_found (some rule) = do current_delete rule; forget rule.name

  unfoldable pub delete_rule : String → Method
  unfolding delete_found OrderedRules.get
  delete_rule name = reading λ fw. delete_found (OrderedRules.get name fw.rules)

  unfoldable pub delete : List String → Method
  unfolding delete_rule
  delete names = for_each delete_rule names

  -- `swap` to the working agent, or from it; the other agent's part does nothing
  swap : Bool → List Rule → Method
  swap to_working rules =
      for_each (λ rule. if to_working then working_add rule else working_delete rule) rules

  unfoldable pub enable : Method
  unfolding swap
  enable = reading λ fw.
      if fw.enabled
      then fail already_enabled
      else do update (λ fw. record fw { enabled = true }); swap true fw.rules

  unfoldable pub disable : Method
  unfolding swap
  disable = reading λ fw.
      if not fw.enabled
      then fail already_disabled
      else do update (λ fw. record fw { enabled = false }); swap false fw.rules

pub data Change : Type 0 where
  add_rules : List Rule → Change
  delete_rules : List String → Change
  enabling disabling : Change

unfoldable pub change : Agent → Change → Method
change a (add_rules rules) = add a rules
change a (delete_rules names) = delete a names
change a enabling = enable a
change a disabling = disable a
