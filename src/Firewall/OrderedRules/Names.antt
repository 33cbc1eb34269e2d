-- ===== src/Firewall/OrderedRules/Names.antt =====
-- The names of ordered rules, and the deletion of one rule by its name or by equality.
use nordvpn_linux.Prelude.{
  string_eq, false, not, ◌&&◌, ◌||◌, ◌==◌, List, [], ◌∷◌, ◌++◌, String, none, some, find,
  find_sound, contains, Nodup, map, ◌≡◌, refl, arith, Bool-cases, inl, inr,
}
use nordvpn_linux.Firewall.{Rule, equal, equal-name, equal_refl}
use nordvpn_linux.Firewall.OrderedRules.{delete_first, by_name}

-- the rule of a name is the first one equal to it
pub delete_first-equal :
    (name : String) (existing : Rule) (rules : List Rule)
    → find (by_name name) rules ≡ some existing
    → delete_first (λ r. equal r existing) rules ≡ delete_first (by_name name) rules
unfolding find delete_first
delete_first-equal name existing [] e = cc
delete_first-equal name existing (r ∷ rules) e = ground (
  arith,
  string_eq.beq_iff r.name name,
  string_eq.beq_iff existing.name name,
  equal_refl r,
  equal-name r existing,
  delete_first-equal name existing rules,
  find_sound (by_name name) rules existing,
)

pub delete_first-append :
    (name : String) (existing rule : Rule) (rules : List Rule)
    → find (by_name name) rules ≡ some existing
    → delete_first (λ r. equal r existing) (rules ++ rule ∷ [])
      ≡ delete_first (λ r. equal r existing) rules ++ rule ∷ []
unfolding find delete_first
delete_first-append name existing rule [] e = cc
delete_first-append name existing rule (r ∷ rules) e = ground (
  arith,
  string_eq.beq_iff r.name name,
  equal_refl r,
  delete_first-append name existing rule rules,
)

abbrev pub names : List Rule → List String
names rules = map (λ (r : Rule). r.name) rules

pub contains-names-none :
    (name : String) (rules : List Rule)
    → find (by_name name) rules ≡ none
    → contains (names rules) name ≡ false
unfolding find contains
contains-names-none name [] e = refl
contains-names-none name (r ∷ rules) e = ground (arith, contains-names-none name rules)

contains-names_append :
    (rule : Rule) (rules : List Rule) (m : String)
    → contains (names (rules ++ rule ∷ [])) m ≡ (contains (names rules) m || rule.name == m)
unfolding contains
contains-names_append rule [] m = ground arith
contains-names_append rule (r ∷ rules) m = ground (arith, contains-names_append rule rules m)

pub append-distinct :
    (rule : Rule) (rules : List Rule)
    → Nodup (names rules)
    → contains (names rules) rule.name ≡ false
    → Nodup (names (rules ++ rule ∷ []))
unfolding contains
append-distinct rule [] d n = (refl, tt)
append-distinct rule (r ∷ rules) (h, d) n = (
  ground (
    arith,
    contains-names_append rule rules r.name,
    string_eq.beq_iff r.name rule.name,
    string_eq.beq_iff rule.name r.name,
  ),
  append-distinct rule rules d (ground arith),
)

-- the name is gone, and no other comes
contains-names_delete :
    (name : String) (rules : List Rule) (m : String)
    → Nodup (names rules)
    → contains (names (delete_first (by_name name) rules)) m
      ≡ (not (name == m) && contains (names rules) m)
unfolding delete_first contains
contains-names_delete name [] m d = ground arith
contains-names_delete name (r ∷ rules) m (h, d) = ground (
  arith,
  contains-names_delete name rules m d,
  string_eq.beq_iff r.name name,
  string_eq.beq_iff r.name m,
  string_eq.beq_iff name m,
)

pub delete_first-distinct :
    (name : String) (rules : List Rule)
    → Nodup (names rules)
    → Nodup (names (delete_first (by_name name) rules))
unfolding delete_first
delete_first-distinct name [] d = tt
delete_first-distinct name (r ∷ rules) (h, d) = elim (Bool-cases (r.name == name)) [
  | inl p ↦ rw p d
  | inr p ↦ rw p (
    ground (arith, contains-names_delete name rules r.name d),
    delete_first-distinct name rules d,
  )
]

pub replace-distinct :
    (rule : Rule) (rules : List Rule)
    → Nodup (names rules)
    → Nodup (names (delete_first (by_name rule.name) rules ++ rule ∷ []))
replace-distinct rule rules d =
    append-distinct rule (delete_first (by_name rule.name) rules)
      (delete_first-distinct rule.name rules d)
      (ground (
        arith,
        contains-names_delete rule.name rules rule.name d,
        string_eq.beq_iff rule.name rule.name,
      ))
