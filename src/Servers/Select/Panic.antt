-- ===== src/Servers/Select/Panic.antt =====
-- When `PickServer` panics: `rand.Intn(len(result))` with an empty result.
use nordvpn_linux.Prelude.{
  ℕ, ◌<◌, Bool, true, false, not, ◌&&◌, nat_eq, bool_eq, none, List, [], ◌∷◌, Text, filter,
  if◌then◌else◌, length, ltb, get_elem?, All, get_elem?-some, Bool-cases, inl, inr, ◌≡◌, ◌≢◌, refl,
  arith, ap,
}
use nordvpn_linux.Config.Group
use nordvpn_linux.Config.Group.{ServerGroup}
use nordvpn_linux.Servers.{Server, is_virtual_location}
use nordvpn_linux.Servers.Names.{ServerTag}
use nordvpn_linux.Servers.Select.{
  Err, server_is_unavailable, Result, ok, err, Api, Criteria, is_empty, resolve_server_group,
  can_connect, filter_servers, is_dedicated_ip, from_cache, pick_one, deliver_chosen, deliver,
  is_by_name, cached_if_failed, get_servers_in_group, get_servers, panicked, picked_of, pick_server,
  from_remote, tagged_servers, server_tag_from_string, TagResult, is_missing_tag,
  get_specific_server_remote, supported, get_servers_remote, non_empty,
}
use nordvpn_linux.Servers.Select.Safety.{get_servers-in_group, get_servers_in_group-split}

-- a random choice below the number of servers
abbrev pub InRange : (ℕ → ℕ) → Type 0
InRange choose = (n : ℕ) → 0 < n → choose n < n

abbrev AllDedicated : List Server → Type 0
AllDedicated = All (λ s. is_dedicated_ip s ≡ true)

module _ (choose : ℕ → ℕ) (in_range : InRange choose) where
  chosen-ne-none :
      (s : Server) (ss : List Server) → get_elem? (s ∷ ss) (choose (length (s ∷ ss))) ≢ none
  chosen-ne-none s ss e =
      let (x, p) =
        get_elem?-some (s ∷ ss) (choose (length (s ∷ ss)))
          (in_range (length (s ∷ ss)) (omega arith)) in
      cc

  pick_one-ne-nil : (s : Server) (ss : List Server) → pick_one choose (s ∷ ss) ≢ []
  unfolding pick_one
  pick_one-ne-nil s ss e =
      let (x, p) =
        get_elem?-some (s ∷ ss) (choose (length (s ∷ ss)))
          (in_range (length (s ∷ ss)) (omega arith)) in
      ground arith

  deliver_chosen-nil :
      (servers : List Server) (remote r : Bool)
      → deliver_chosen choose 1 servers remote ≡ ok ([], r)
      → is_empty servers ≡ true
  unfolding deliver_chosen
  deliver_chosen-nil [] remote r e = refl
  deliver_chosen-nil (s ∷ ss) remote r e = absurd (pick_one-ne-nil s ss (ground arith))

  -- a delivery of nothing was handed nothing
  deliver-nil :
      (allow : Bool) (servers : List Server) (remote r : Bool)
      → deliver choose allow 1 servers remote ≡ ok ([], r)
      → servers ≡ []
  unfolding deliver
  deliver-nil allow [] remote r e = refl
  deliver-nil allow (s ∷ ss) remote r e =
      let physical = filter (λ s. not (is_virtual_location s)) (s ∷ ss) in
      absurd
        (ground (arith, deliver_chosen-nil physical remote r, deliver_chosen-nil (s ∷ ss) remote r))

AllDedicated-of_none_left :
    (ss : List Server) → filter (λ s. not (is_dedicated_ip s)) ss ≡ [] → AllDedicated ss
unfolding filter
AllDedicated-of_none_left [] e = tt
AllDedicated-of_none_left (s ∷ ss) e = elim (Bool-cases (is_dedicated_ip s)) [
  | inl d ↦ (d, AllDedicated-of_none_left ss (ground arith))
  | inr d ↦ absurd (ground arith)
]

none_left : (ss : List Server) → AllDedicated ss → filter (λ s. not (is_dedicated_ip s)) ss ≡ []
unfolding filter
none_left [] h = refl
none_left (s ∷ ss) h = ground (arith, h.0, none_left ss h.1)

from_cache-nil :
    (c : Criteria) (group : ServerGroup) (t : ServerTag)
    → from_cache c group t ≡ ok []
    → (1 < length (filter (can_connect c group) c.servers))
      × AllDedicated (filter (can_connect c group) c.servers)
unfolding from_cache filter_servers
from_cache-nil c group t e = go (filter (can_connect c group) c.servers) e
  where
    go :
        (found : List Server)
        → elim (if is_empty found then err server_is_unavailable else ok found)
            as (λ _. Result (List Server)) [
              | err e ↦ err e
              | ok found ↦
                  if not (is_by_name t.action) && ltb 1 (length found)
                  then ok (filter (λ s. not (is_dedicated_ip s)) found)
                  else ok found
            ]
          ≡ ok []
        → (1 < length found) × AllDedicated found
    go [] q = cc
    go (s ∷ ss) q = (ground arith, AllDedicated-of_none_left (s ∷ ss) (ground arith))

tagged_servers-ne-nil :
    (equal_fold : Text → Text → Bool) (api : Api) (c : Criteria) (group : ServerGroup) (count : ℕ)
    (t : ServerTag)
    → tagged_servers equal_fold api c group count t ≢ ok []
unfolding tagged_servers get_specific_server_remote get_servers_remote supported non_empty
tagged_servers-ne-nil equal_fold api c group count t e = ground arith

from_remote-ne-nil :
    (equal_fold : Text → Text → Bool) (api : Api) (c : Criteria) (group : ServerGroup) (count : ℕ)
    (t : TagResult)
    → from_remote equal_fold api c group count t ≢ ok []
unfolding from_remote
from_remote-ne-nil equal_fold api c group count t e =
    ground (arith, tagged_servers-ne-nil equal_fold api c group count t.tag)

module _ (equal_fold : Text → Text → Bool) (api : Api) (choose choose_again : ℕ → ℕ)
    (c : Criteria) where
  module _ (in_range : InRange choose) where
    cached_if_failed-nil :
        (group : ServerGroup) (t : ServerTag) (found : Result (List Server)) (r : Bool)
        → found ≢ ok []
        → cached_if_failed equal_fold api choose c group t 1 found ≡ ok ([], r)
        → from_cache c group t ≡ ok []
    unfolding cached_if_failed
    cached_if_failed-nil group t (ok found) r n e =
        absurd (n (ap ok (deliver-nil choose in_range c.allow_virtual_server found true r e)))
    cached_if_failed-nil group t (err _) r n e = go (from_cache c group t) e
      where
        go :
            (q : Result (List Server))
            → elim q as (λ _. Result (List Server × Bool)) [
              | err e ↦ err e
              | ok found ↦ deliver choose c.allow_virtual_server 1 found false
            ]
              ≡ ok ([], r)
            → q ≡ ok []
        go (err x) p = cc
        go (ok ss) p = ap ok (deliver-nil choose in_range c.allow_virtual_server ss false r p)

    picked_of-panicked :
        InRange choose_again
        → (r : Result (List Server × Bool))
        → picked_of equal_fold api choose choose_again r ≡ panicked
        → (remote : Bool) × (r ≡ ok ([], remote))
    unfolding picked_of
    picked_of-panicked again (err x) e = cc
    picked_of-panicked again (ok ([], remote)) e = (remote, refl)
    picked_of-panicked again (ok (s ∷ ss, remote)) e =
        let (x, p) =
          get_elem?-some (s ∷ ss) (choose_again (length (s ∷ ss)))
            (again (length (s ∷ ss)) (omega arith)) in
        cc

    -- With random choices in range `PickServer` panics only where the cached servers that fit are
    -- several and all of them dedicated IP servers, for the group that the arguments resolve to.
    pub pick_server-panicked :
        InRange choose_again
        → pick_server equal_fold api choose choose_again c ≡ panicked
        → (group : ServerGroup) × (resolve_server_group c.group_flag c.tag ≡ ok group)
          × (1 < length (filter (can_connect c group) c.servers))
          × All (λ s. is_dedicated_ip s ≡ true) (filter (can_connect c group) c.servers)
    unfolding pick_server
    pick_server-panicked again e =
        let (remote, p) = picked_of-panicked again (get_servers equal_fold api choose c 1) e in
        let (group, q, _, g) = get_servers-in_group equal_fold api choose c 1 ([], remote) p in
        let (t, f) = get_servers_in_group-split equal_fold api choose c 1 group ([], remote) g in
        let (several, dedicated) = from_cache-nil c group t.tag (
          cached_if_failed-nil group t.tag (from_remote equal_fold api c group 1 t) remote
            (from_remote-ne-nil equal_fold api c group 1 t) f) in
        (group, q, several, dedicated)

  from_cache-All_dedicated :
      (group : ServerGroup) (t : ServerTag)
      → is_by_name t.action ≡ false
      → 1 < length (filter (can_connect c group) c.servers)
      → All (λ s. is_dedicated_ip s ≡ true) (filter (can_connect c group) c.servers)
      → from_cache c group t ≡ ok []
  unfolding from_cache filter_servers
  from_cache-All_dedicated group t n several dedicated =
      go (filter (can_connect c group) c.servers) several (none_left _ dedicated)
    where
      go :
          (found : List Server)
          → 1 < length found
          → filter (λ s. not (is_dedicated_ip s)) found ≡ []
          → elim (if is_empty found then err server_is_unavailable else ok found)
              as (λ _. Result (List Server)) [
                | err e ↦ err e
                | ok found ↦
                    if not (is_by_name t.action) && ltb 1 (length found)
                    then ok (filter (λ s. not (is_dedicated_ip s)) found)
                    else ok found
              ]
            ≡ ok []
      go [] p q = absurd (omega arith)
      go (s ∷ ss) p q = ground arith

  -- `PickServer` panics, whatever the random choices, where the arguments resolve to a group other than
  -- that of dedicated IP servers and to a tag that is not missing and does not name a server, the API
  -- fails, and the cached servers that fit are several and all of them dedicated IP servers.
  pick_server_panics :
      (group : ServerGroup) (e : Err)
      → let t = server_tag_from_string equal_fold api c group (not (is_empty c.group_flag)) in
        resolve_server_group c.group_flag c.tag ≡ ok group
        → group ≢ Group.dedicated_ip
        → is_missing_tag t.error ≡ false
        → is_by_name t.tag.action ≡ false
        → from_remote equal_fold api c group 1 t ≡ err e
        → 1 < length (filter (can_connect c group) c.servers)
        → All (λ s. is_dedicated_ip s ≡ true) (filter (can_connect c group) c.servers)
        → pick_server equal_fold api choose choose_again c ≡ panicked
  unfolding pick_server get_servers get_servers_in_group cached_if_failed picked_of deliver
      deliver_chosen
  pick_server_panics group e resolved other present n refused several dedicated =
      let t = server_tag_from_string equal_fold api c group (not (is_empty c.group_flag)) in
      ground (arith, from_cache-All_dedicated group t.tag n several dedicated)
