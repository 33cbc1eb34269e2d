-- ===== src/Networker/Rules/Peers.antt =====
-- The rules of mesh peers.
use nordvpn_linux.Prelude.{
  string_eq, Bool, true, false, ◌||◌, ◌==◌, List, [], ◌∷◌, ◌++◌, String, none, contains,
  if◌then◌else◌, ◌≡◌, arith, ◌∙◌, sym, subst, append_assoc, append-nil,
}
use nordvpn_linux.Prelude.Action.{succeed, fail, update, reading, ◌>>◌}
use nordvpn_linux.Networker.{World, Combined, on_firewall}
use nordvpn_linux.Networker.Rules.{
  allow_incoming, block_incoming, add_rules, delete_rules, remove_rule, delete_name, rule_name,
  allow_incoming_rule, block_lan_rule, allow_fileshare, block_fileshare, allow_fileshare_rule,
}

delete_name-append :
    (s : String) (xs : List String)
    → contains xs s ≡ false
    → (ys : List String) → delete_name s (xs ++ s ∷ ys) ≡ xs ++ ys
unfolding delete_name contains
delete_name-append s [] h ys = grind (arith, string_eq.beq_iff s s)
delete_name-append s (x ∷ xs) h ys = grind (arith, string_eq.beq_iff x s, delete_name-append s xs)

contains-append :
    (xs : List String) (y s : String) → contains (xs ++ y ∷ []) s ≡ (contains xs s || y == s)
unfolding contains
contains-append [] y s = ground arith
contains-append (x ∷ xs) y s = grind (arith, contains-append xs y s)

remove_rule-rules :
    (w : World) (name : String) (n : Combined)
    → (remove_rule w name n).0 ≡ none
    → (remove_rule w name n).1.rules ≡ delete_name name n.rules
unfolding remove_rule delete_rules on_firewall reading update fail ◌>>◌
remove_rule-rules w name n h = ground arith

pub allow_fileshare-rules :
    (w : World) (key address : String) (n : Combined)
    → (allow_fileshare w key address n).0 ≡ none
    → let name = rule_name key allow_fileshare_rule address in
      (contains n.rules name ≡ false)
      × ((allow_fileshare w key address n).1.rules ≡ n.rules ++ name ∷ [])
unfolding allow_fileshare add_rules on_firewall reading update fail ◌>>◌
allow_fileshare-rules w key address n h = ground arith

abbrev marks_lan : Bool → String → List String → List String
marks_lan lan_allowed name rules = if lan_allowed then rules else rules ++ name ∷ []

allow_incoming-rules :
    (w : World) (key address : String) (lan_allowed : Bool) (n : Combined)
    → (allow_incoming w key address lan_allowed n).0 ≡ none
    → let name = rule_name key allow_incoming_rule address in
      let lan_name = rule_name key block_lan_rule address in
      (contains n.rules name ≡ false)
      × ((allow_incoming w key address lan_allowed n).1.rules
          ≡ marks_lan lan_allowed lan_name n.rules ++ name ∷ [])
unfolding allow_incoming add_rules on_firewall reading update fail succeed ◌>>◌
allow_incoming-rules w key address lan_allowed n h = ground arith

-- the rule that blocks the LAN is removed first, where its name is remembered
block_incoming-rules :
    (w : World) (key address : String) (n : Combined)
    → (block_incoming w key address n).0 ≡ none
    → let name = rule_name key allow_incoming_rule address in
      let lan_name = rule_name key block_lan_rule address in
      let others = if contains n.rules lan_name then delete_name lan_name n.rules else n.rules in
      (contains others name ≡ true)
      × ((block_incoming w key address n).1.rules ≡ delete_name name others)
unfolding block_incoming remove_rule delete_rules on_firewall reading update fail succeed ◌>>◌
block_incoming-rules w key address n h = ground arith

unmarked :
    (lan_allowed : Bool) (lan_name name : String) (rules : List String)
    → contains rules lan_name ≡ false
    → contains rules name ≡ false
    → let marked = marks_lan lan_allowed lan_name rules ++ name ∷ [] in
      let others = if contains marked lan_name then delete_name lan_name marked else marked in
      contains others name ≡ true → delete_name name others ≡ rules
unmarked true lan_name name rules f g h = grind (
  arith,
  string_eq.beq_iff name lan_name,
  contains-append rules name lan_name,
  append-nil rules,
  delete_name-append lan_name rules f [],
  delete_name-append name rules g [],
)
unmarked false lan_name name rules f g h = grind (
  arith,
  string_eq.beq_iff lan_name lan_name,
  contains-append rules lan_name lan_name,
  append-nil rules,
  contains-append (rules ++ lan_name ∷ []) name lan_name,
  append_assoc rules (lan_name ∷ []) (name ∷ []),
  delete_name-append lan_name rules f (name ∷ []),
  delete_name-append name rules g [],
)

-- Where the file sharing of a peer is allowed and then blocked, both with success, the networker remembers
-- the same rules as before.
pub block_fileshare-allow_fileshare :
    (w : World) (key address : String) (n : Combined)
    → let allowed = allow_fileshare w key address n in
      let blocked = block_fileshare w key address allowed.1 in
      allowed.0 ≡ none → blocked.0 ≡ none → blocked.1.rules ≡ n.rules
unfolding block_fileshare
block_fileshare-allow_fileshare w key address n a b =
    let name = rule_name key allow_fileshare_rule address in
    let allowed = allow_fileshare w key address n in
    let h = allow_fileshare-rules w key address n a in
    remove_rule-rules w name allowed.1 b
    ∙ subst (λ r. delete_name name r ≡ n.rules) (sym h.1)
        (delete_name-append name n.rules h.0 [] ∙ append-nil n.rules)

-- Where the traffic from a peer is allowed, its access to the LAN allowed or not, and then blocked, both
-- with success, the networker remembers the same rules as before, unless it remembered the rule that
-- blocks the LAN for that peer already.
pub block_incoming-allow_incoming :
    (w : World) (key address : String) (lan_allowed : Bool) (n : Combined)
    → let allowed = allow_incoming w key address lan_allowed n in
      let blocked = block_incoming w key address allowed.1 in
      contains n.rules (rule_name key block_lan_rule address) ≡ false
      → allowed.0 ≡ none
      → blocked.0 ≡ none
      → blocked.1.rules ≡ n.rules
block_incoming-allow_incoming w key address lan_allowed n fresh a b =
    let name = rule_name key allow_incoming_rule address in
    let lan_name = rule_name key block_lan_rule address in
    let allowed = allow_incoming w key address lan_allowed n in
    let h = allow_incoming-rules w key address lan_allowed n a in
    let k = block_incoming-rules w key address allowed.1 b in
    k.1
    ∙ subst
        (λ r.
          let others = if contains r lan_name then delete_name lan_name r else r in
          contains others name ≡ true → delete_name name others ≡ n.rules)
        (sym h.1) (unmarked lan_allowed lan_name name n.rules fresh h.0) k.0
