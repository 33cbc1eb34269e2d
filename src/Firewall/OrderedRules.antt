-- ===== src/Firewall/OrderedRules.antt =====
-- Rules in the order in which they were added: `OrderedRules` of daemon/firewall/rule.go.
pub mod Names
use nordvpn_linux.Prelude.{
  string_eq, Bool, ◌==◌, if◌then◌else◌, List, [], ◌∷◌, ◌++◌, String, Option, none, some, find,
}
use nordvpn_linux.Firewall.{Rule, equal}

-- daemon/firewall/errors.go; `agent` is any error of an agent
pub data FirewallError : Type 0 where
  rule_not_found rule_already_exists rule_without_name already_enabled already_disabled :
      FirewallError
  agent : FirewallError

abbrev pub by_name : String → Rule → Bool
by_name name rule = rule.name == name

-- the element at slices.IndexFunc is deleted, where there is one
unfoldable pub delete_first : (Rule → Bool) → List Rule → List Rule
delete_first p [] = []
delete_first p (r ∷ rs) = let rest = r ∷ delete_first p rs in if p r then rs else rest

unfoldable pub add : Rule → List Rule → Option FirewallError × List Rule
add rule rules =
    if rule.name == ""
    then (some rule_without_name, rules)
    else elim (find (by_name rule.name) rules) [
      | none ↦ (none, rules ++ rule ∷ [])
      | some existing ↦
          if equal existing rule
          then (some rule_already_exists, rules)
          else (none, delete_first (by_name rule.name) rules ++ rule ∷ [])
    ]

unfoldable pub get : String → List Rule → Option Rule
get name rules = find (by_name name) rules

-- A list of one rule is replaced by an empty one, which is the same deletion.
unfoldable pub delete : String → List Rule → Option FirewallError × List Rule
delete name rules = elim (find (by_name name) rules) [
  | none ↦ (some rule_not_found, rules)
  | some _ ↦ (none, delete_first (by_name name) rules)
]
