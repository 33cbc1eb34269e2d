-- ===== src/Firewall/Service/Tracking.antt =====
-- The working agent holds exactly the remembered rules.
use nordvpn_linux.Prelude.{
  ℕ, suc, string_eq, Bool, true, false, ◌&&◌, ◌||◌, ◌==◌, if◌then◌else◌, List, [], ◌∷◌, ◌++◌,
  String, Option, none, some, find, find_sound, Nodup, map, ◌≡◌, refl, sym, subst, ◌∙◌, append-nil,
  append_assoc, arith, Bool-cases, inl, inr,
}
use nordvpn_linux.Prelude.Action.{fail, reading, ◌>>◌, for_each, Keeps, Keeps-for_each}
use nordvpn_linux.Firewall.{Rule, equal, equal_refl}
use nordvpn_linux.Firewall.OrderedRules
use nordvpn_linux.Firewall.OrderedRules.{
  FirewallError, delete_first, by_name, agent, already_enabled, rule_not_found, rule_already_exists,
}
use nordvpn_linux.Firewall.OrderedRules.Names.{
  names, delete_first-equal, delete_first-append, contains-names-none, append-distinct,
  delete_first-distinct, replace-distinct,
}
use nordvpn_linux.Firewall.Service.{
  Agent, Firewall, working_add, working_delete, current_add, current_delete, remember, forget,
  add_checked, add_rule, add, delete_found, delete_rule, delete, swap, enable, disable, Change,
  add_rules, delete_rules, enabling, disabling, change,
}

-- no two rules have the same name, and the working agent has the remembered rules while it is current
pub record IsTracking (fw : Firewall) : Type 0 where
  pub distinct : Nodup (map (λ (r : Rule). r.name) fw.rules)
  pub in_step : fw.installed ≡ (if fw.enabled then fw.rules else [])

module _ (a : Agent) (reliable : (n : ℕ) (r : Rule) → a.delete_fails n r ≡ false) where
  refusing : Rule → Firewall → Bool
  refusing rule fw = fw.enabled && a.add_fails fw.asked rule

  add_new-IsTracking :
      (rule : Rule) (fw : Firewall)
      → (rule.name == "") ≡ false
      → OrderedRules.get rule.name fw.rules ≡ none
      → IsTracking fw
      → IsTracking (add_checked a none rule fw).1
  unfolding add_checked ◌>>◌ OrderedRules.get OrderedRules.add working_add current_add remember
      refusing
  add_new-IsTracking rule fw named fresh h = record {
    distinct = elim (Bool-cases (refusing rule fw)) [
      | inl p ↦
          let same : fw.rules ≡ (add_checked a none rule fw).1.rules = ground arith in
          subst (λ rs. Nodup (names rs)) same h.distinct
      | inr p ↦
          let same : fw.rules ++ rule ∷ [] ≡ (add_checked a none rule fw).1.rules = ground arith in
          subst (λ rs. Nodup (names rs)) same
            (append-distinct rule fw.rules h.distinct
              (contains-names-none rule.name fw.rules fresh))
    ];
    in_step = ground (arith, h.in_step);
  }

  replace-IsTracking :
      (existing rule : Rule) (fw : Firewall)
      → (rule.name == "") ≡ false
      → OrderedRules.get rule.name fw.rules ≡ some existing
      → IsTracking fw
      → IsTracking (add_checked a (some existing) rule fw).1
  unfolding add_checked ◌>>◌ OrderedRules.get OrderedRules.add working_add working_delete
      current_add current_delete remember refusing
  replace-IsTracking existing rule fw named found h = record {
    distinct = elim (Bool-cases (equal existing rule || refusing rule fw)) [
      | inl p ↦
          let same : fw.rules ≡ (add_checked a (some existing) rule fw).1.rules = ground arith in
          subst (λ rs. Nodup (names rs)) same h.distinct
      | inr p ↦
          let same : delete_first (by_name rule.name) fw.rules ++ rule ∷ []
              ≡ (add_checked a (some existing) rule fw).1.rules =
            ground arith in
          subst (λ rs. Nodup (names rs)) same (replace-distinct rule fw.rules h.distinct)
    ];
    in_step = ground (
      arith,
      h.in_step,
      reliable (suc fw.asked) existing,
      delete_first-append rule.name existing rule fw.rules found,
      delete_first-equal rule.name existing fw.rules found,
    );
  }

  add_rule-IsTracking : (rule : Rule) → Keeps IsTracking (add_rule a rule)
  unfolding add_rule fail reading
  add_rule-IsTracking rule = record { at = λ fw h. named fw h (rule.name == "") refl }
    where
      found :
          (fw : Firewall)
          → IsTracking fw
          → (rule.name == "") ≡ false
          → (o : Option Rule) → OrderedRules.get rule.name fw.rules ≡ o
          → IsTracking (add_checked a o rule fw).1
      found fw h n none e = add_new-IsTracking rule fw n e h
      found fw h n (some existing) e = replace-IsTracking existing rule fw n e h

      named :
          (fw : Firewall)
          → IsTracking fw
          → (b : Bool) → (rule.name == "") ≡ b
          → IsTracking (add_rule a rule fw).1
      named fw h true e = rw e h
      named fw h false e = rw e (found fw h e (OrderedRules.get rule.name fw.rules) refl)

  delete_found-IsTracking :
      (name : String) (o : Option Rule) (fw : Firewall)
      → OrderedRules.get name fw.rules ≡ o
      → IsTracking fw
      → IsTracking (delete_found a o fw).1
  unfolding delete_found ◌>>◌ OrderedRules.get OrderedRules.delete working_delete current_delete
      forget
  delete_found-IsTracking name none fw e h = h
  delete_found-IsTracking name (some rule) fw e h = record {
    distinct =
        let same : delete_first (by_name rule.name) fw.rules
            ≡ (delete_found a (some rule) fw).1.rules =
          ground (arith, reliable fw.asked rule, renamed) in
        subst (λ rs. Nodup (names rs)) same (delete_first-distinct rule.name fw.rules h.distinct);
    in_step = ground (
      arith,
      h.in_step,
      reliable fw.asked rule,
      renamed,
      delete_first-equal rule.name rule fw.rules,
    );
  }
    where
      renamed : find (by_name rule.name) fw.rules ≡ some rule
      renamed =
          let same : name ≡ rule.name =
            ground (
              arith,
              find_sound (by_name name) fw.rules rule e,
              string_eq.beq_iff rule.name name,
            ) in
          subst (λ n. find (by_name n) fw.rules ≡ some rule) same e

  delete_rule-IsTracking : (name : String) → Keeps IsTracking (delete_rule a name)
  unfolding delete_rule reading
  delete_rule-IsTracking name = record {
    at = λ fw h. delete_found-IsTracking name (OrderedRules.get name fw.rules) fw refl h;
  }

  -- the loop of `swap` from the working agent empties it
  swapped_out :
      (rules : List Rule) (fw : Firewall)
      → fw.installed ≡ rules
      → ((swap a false rules fw).1.installed ≡ [])
        × ((swap a false rules fw).1.rules ≡ fw.rules)
        × ((swap a false rules fw).1.enabled ≡ fw.enabled)
  unfolding swap for_each ◌>>◌ working_delete delete_first
  swapped_out [] fw e = (e, refl, refl)
  swapped_out (r ∷ rules) fw e =
      let next : Firewall = record fw { asked = suc fw.asked; installed = rules } in
      let step : working_delete a r fw ≡ (none, next) =
        ground (arith, reliable fw.asked r, equal_refl r) in
      rw step (swapped_out rules next refl)

-- the loop of `swap` to the working agent adds the rules in their order
swapped_in :
    (a : Agent) (rules : List Rule) (fw : Firewall)
    → (swap a true rules fw).0 ≡ none
    → ((swap a true rules fw).1.installed ≡ fw.installed ++ rules)
      × ((swap a true rules fw).1.rules ≡ fw.rules)
      × ((swap a true rules fw).1.enabled ≡ fw.enabled)
unfolding swap for_each ◌>>◌ working_add
swapped_in a [] fw e = (sym (append-nil fw.installed), refl, refl)
swapped_in a (r ∷ rules) fw e = elim (Bool-cases (a.add_fails fw.asked r)) [
  | inl refused ↦ absurd (ground arith)
  | inr taken ↦
      let next : Firewall = record fw {
        asked = suc fw.asked;
        installed = fw.installed ++ r ∷ [];
      } in
      let step : working_add a r fw ≡ (none, next) = ground arith in
      let (i, rs, on) = swapped_in a rules next (rw step at e) in
      rw step (i ∙ append_assoc fw.installed (r ∷ []) rules, rs, on)
]

enable-IsTracking :
    (a : Agent) (fw : Firewall)
    → (enable a fw).0 ≡ none
    → IsTracking fw
    → IsTracking (enable a fw).1
unfolding enable ◌>>◌
enable-IsTracking a fw e h = elim (Bool-cases fw.enabled) [
  | inl on ↦ absurd (ground arith)
  | inr off ↦
      let started : Firewall = record fw { enabled = true } in
      let (i, rs, on) = swapped_in a fw.rules started (rw off at e) in
      rw off (record {
        distinct = subst (λ l. Nodup (names l)) (sym rs) h.distinct;
        in_step = ground (arith, i, rs, on, h.in_step);
      })
]

disable-IsTracking :
    (a : Agent)
    → ((n : ℕ) (r : Rule) → a.delete_fails n r ≡ false)
    → (fw : Firewall) → IsTracking fw
    → IsTracking (disable a fw).1
unfolding disable ◌>>◌
disable-IsTracking a reliable fw h = elim (Bool-cases fw.enabled) [
  | inl on ↦
      let stopped : Firewall = record fw { enabled = false } in
      let full : fw.installed ≡ fw.rules = ground (arith, h.in_step) in
      let (i, rs, off) = swapped_out a reliable fw.rules stopped full in
      rw on (record {
        distinct = subst (λ l. Nodup (names l)) (sym rs) h.distinct;
        in_step = ground (arith, i, off);
      })
  | inr off ↦ let same : fw ≡ (disable a fw).1 = ground arith in subst IsTracking same h
]

-- A change of the firewall keeps the working agent's rules those that the firewall remembers, in the
-- same order, while it is enabled, and none while it is disabled; names stay distinct. The agent's
-- deletions are taken not to fail. An addition may fail, except when the firewall is being enabled: then
-- the change is taken to succeed.
pub change-IsTracking :
    (a : Agent) (c : Change) (fw : Firewall)
    → ((n : ℕ) (r : Rule) → a.delete_fails n r ≡ false)
    → (c ≡ enabling → (change a c fw).0 ≡ none)
    → IsTracking fw
    → IsTracking (change a c fw).1
unfolding change add delete
change-IsTracking a (add_rules rules) fw reliable succeeds h =
    (Keeps-for_each (add_rule a) rules (add_rule-IsTracking a reliable)).at fw h
change-IsTracking a (delete_rules ns) fw reliable succeeds h =
    (Keeps-for_each (delete_rule a) ns (delete_rule-IsTracking a reliable)).at fw h
change-IsTracking a enabling fw reliable succeeds h = enable-IsTracking a fw (succeeds refl) h
change-IsTracking a disabling fw reliable succeeds h = disable-IsTracking a reliable fw h
