-- ===== src/Servers/Select/Safety.antt =====
-- What is true of every server that the selection returns, and when `PickServer` can panic.
use mathlib.Core.Bool.{false≢true}
use nordvpn_linux.Prelude.{
  sym, ℕ, Bool, true, false, not, ◌&&◌, ◌==◌, nat_eq, bool_eq, Option, none, some, List, [], ◌∷◌,
  Text, filter, if◌then◌else◌, length, ltb, get_elem?, All, All-filter, All-get_elem?, filter-All,
  Bool-cases, inl, inr, ◌≡◌, ◌≢◌, refl, arith, subst,
}
use nordvpn_linux.Config.Group
use nordvpn_linux.Config.Group.{ServerGroup}
use nordvpn_linux.Servers.{Server, is_virtual_location}
use nordvpn_linux.Servers.Names.{ServerTag}
use nordvpn_linux.Servers.Select.{
  dedicated_ip_server, Result, ok, err, Api, Criteria, is_empty, resolve_server_group, can_connect,
  filter_servers, is_dedicated_ip, from_cache, pick_one, deliver_chosen, deliver, is_by_name,
  cached_if_failed, get_servers_in_group, get_servers, from_remote, server_tag_from_string,
  TagResult,
}

abbrev IsPhysical : Server → Type 0
IsPhysical s = not (is_virtual_location s) ≡ true

module _ (P : Server → Type 0) (choose : ℕ → ℕ) where
  pick_one-All : (servers : List Server) → All P servers → All P (pick_one choose servers)
  unfolding pick_one
  pick_one-All servers h = go (get_elem? servers (choose (length servers))) refl
    where
      go :
          (o : Option Server)
          → get_elem? servers (choose (length servers)) ≡ o
          → All P (elim o [ none ↦ [] | some s ↦ s ∷ [] ])
      go none e = tt
      go (some s) e = (All-get_elem? P servers (choose (length servers)) s h e, tt)

  deliver_chosen-All :
      (count : ℕ) (servers : List Server) (remote : Bool) (out : List Server) (r : Bool)
      → All P servers
      → deliver_chosen choose count servers remote ≡ ok (out, r)
      → All P out
  unfolding deliver_chosen
  deliver_chosen-All count servers remote out r h e =
      elim (Bool-cases (count == 1 && not (is_empty servers))) [
        | inl t ↦
            let same : pick_one choose servers ≡ out = ground arith in
            subst (All P) same (pick_one-All servers h)
        | inr t ↦ let same : servers ≡ out = ground arith in subst (All P) same h
      ]

  deliver-All :
      (allow : Bool) (count : ℕ) (servers : List Server) (remote : Bool) (out : List Server)
      (r : Bool)
      → All P servers
      → deliver choose allow count servers remote ≡ ok (out, r)
      → All P out
  unfolding deliver
  deliver-All allow count servers remote out r h e =
      let physical = filter (λ s. not (is_virtual_location s)) servers in
      elim (Bool-cases (not allow && not (is_empty servers))) [
        | inl t ↦ elim (Bool-cases (is_empty physical)) [
          | inl u ↦ absurd (ground arith)
          | inr u ↦
              deliver_chosen-All count physical remote out r
                (All-filter P (λ s. not (is_virtual_location s)) servers h) (ground arith)
        ]
        | inr t ↦ deliver_chosen-All count servers remote out r h (ground arith)
      ]

deliver-remote :
    (choose : ℕ → ℕ) (allow : Bool) (count : ℕ) (servers : List Server) (remote : Bool)
    (out : List Server) (r : Bool)
    → deliver choose allow count servers remote ≡ ok (out, r)
    → remote ≡ r
unfolding deliver deliver_chosen
deliver-remote choose allow count servers remote out r e = ground arith

deliver-IsPhysical :
    (choose : ℕ → ℕ) (count : ℕ) (servers : List Server) (remote : Bool) (out : List Server)
    (r : Bool)
    → deliver choose false count servers remote ≡ ok (out, r)
    → All IsPhysical out
unfolding deliver
deliver-IsPhysical choose count [] remote out r e =
    deliver_chosen-All IsPhysical choose count [] remote out r tt e
deliver-IsPhysical choose count (s ∷ ss) remote out r e =
    let physical = filter (λ s. not (is_virtual_location s)) (s ∷ ss) in
    elim (Bool-cases (is_empty physical)) [
      | inl u ↦ absurd (ground arith)
      | inr u ↦
          deliver_chosen-All IsPhysical choose count physical remote out r
            (filter-All (λ s. not (is_virtual_location s)) (s ∷ ss)) (ground arith)
    ]

-- the cached servers pass the test of the selection
from_cache-All :
    (c : Criteria) (group : ServerGroup) (t : ServerTag) (servers : List Server)
    → from_cache c group t ≡ ok servers
    → All (λ s. can_connect c group s ≡ true) servers
unfolding from_cache filter_servers
from_cache-All c group t servers e =
    let P = λ (s : Server). can_connect c group s ≡ true in
    let found = filter (can_connect c group) c.servers in
    let fits : All P found = filter-All (can_connect c group) c.servers in
    elim (Bool-cases (is_empty found)) [
      | inl u ↦ absurd (ground arith)
      | inr u ↦ elim (Bool-cases (not (is_by_name t.action) && ltb 1 (length found))) [
        | inl v ↦
            let same : filter (λ s. not (is_dedicated_ip s)) found ≡ servers = ground arith in
            subst (All P) same (All-filter P (λ s. not (is_dedicated_ip s)) found fits)
        | inr v ↦ let same : found ≡ servers = ground arith in subst (All P) same fits
      ]
    ]

module _ (equal_fold : Text → Text → Bool) (api : Api) (choose : ℕ → ℕ) (c : Criteria)
    (count : ℕ) where
  cached_if_failed-cached :
      (group : ServerGroup) (t : ServerTag) (r : Result (List Server)) (servers : List Server)
      → cached_if_failed equal_fold api choose c group t count r ≡ ok (servers, false)
      → All (λ s. can_connect c group s ≡ true) servers
  unfolding cached_if_failed
  cached_if_failed-cached group t (ok found) servers e = absurd (
      false≢true
        (sym (deliver-remote choose c.allow_virtual_server count found true servers false e)))
  cached_if_failed-cached group t (err _) servers e = go (from_cache c group t) refl e
    where
      go :
          (r : Result (List Server))
          → from_cache c group t ≡ r
          → elim r as (λ _. Result (List Server × Bool)) [
            | err e ↦ err e
            | ok found ↦ deliver choose c.allow_virtual_server count found false
          ]
            ≡ ok (servers, false)
          → All (λ s. can_connect c group s ≡ true) servers
      go (err x) p q = cc
      go (ok found) p q =
          deliver-All (λ s. can_connect c group s ≡ true) choose c.allow_virtual_server count found
            false servers false (from_cache-All c group t found p) q

  cached_if_failed-IsPhysical :
      (group : ServerGroup) (t : ServerTag) (r : Result (List Server)) (servers : List Server)
      (remote : Bool)
      → c.allow_virtual_server ≡ false
      → cached_if_failed equal_fold api choose c group t count r ≡ ok (servers, remote)
      → All IsPhysical servers
  unfolding cached_if_failed
  cached_if_failed-IsPhysical group t (ok found) servers remote v e =
      deliver-IsPhysical choose count found true servers remote (rw v at e)
  cached_if_failed-IsPhysical group t (err _) servers remote v e = go (from_cache c group t) e
    where
      go :
          (r : Result (List Server))
          → elim r as (λ _. Result (List Server × Bool)) [
            | err e ↦ err e
            | ok found ↦ deliver choose c.allow_virtual_server count found false
          ]
            ≡ ok (servers, remote)
          → All IsPhysical servers
      go (err x) q = cc
      go (ok found) q = deliver-IsPhysical choose count found false servers remote (rw v at q)

  -- the group that `getServers` goes on with, and its selection within it
  pub get_servers-in_group :
      (out : List Server × Bool)
      → get_servers equal_fold api choose c count ≡ ok out
      → (group : ServerGroup) × (resolve_server_group c.group_flag c.tag ≡ ok group)
        × (group ≢ Group.dedicated_ip)
        × (get_servers_in_group equal_fold api choose c group count ≡ ok out)
  unfolding get_servers
  get_servers-in_group out e = go (resolve_server_group c.group_flag c.tag) refl e
    where
      go :
          (r : Result ServerGroup)
          → resolve_server_group c.group_flag c.tag ≡ r
          → elim r as (λ _. Result (List Server × Bool)) [
            | err e ↦ err e
            | ok group ↦
                if group == Group.dedicated_ip
                then err dedicated_ip_server
                else get_servers_in_group equal_fold api choose c group count
          ]
            ≡ ok out
          → (group : ServerGroup) × (resolve_server_group c.group_flag c.tag ≡ ok group)
            × (group ≢ Group.dedicated_ip)
            × (get_servers_in_group equal_fold api choose c group count ≡ ok out)
      go (err x) p q = cc
      go (ok group) p q = (group, p, ground arith, ground arith)

  pub get_servers_in_group-split :
      (group : ServerGroup) (out : List Server × Bool)
      → get_servers_in_group equal_fold api choose c group count ≡ ok out
      → (t : TagResult) × (cached_if_failed equal_fold api choose c group t.tag count
            (from_remote equal_fold api c group count t)
          ≡ ok out)
  unfolding get_servers_in_group
  get_servers_in_group-split group out e =
      (server_tag_from_string equal_fold api c group (not (is_empty c.group_flag)), ground arith)

  -- Servers that were not selected by the API, but among the cached ones, all pass the test of the
  -- user's settings: the technology and protocol are served online, the obfuscation is the one
  -- asked for, and the tag and the group are the server's.
  pub get_servers-cached_can_connect :
      (servers : List Server)
      → get_servers equal_fold api choose c count ≡ ok (servers, false)
      → (group : ServerGroup) × (resolve_server_group c.group_flag c.tag ≡ ok group)
        × All (λ s. can_connect c group s ≡ true) servers
  get_servers-cached_can_connect servers e =
      let (group, p, _, q) = get_servers-in_group (servers, false) e in
      let (t, r) = get_servers_in_group-split group (servers, false) q in
      (
        group,
        p,
        cached_if_failed-cached group t.tag (from_remote equal_fold api c group count t) servers r,
      )

  -- Where the user does not allow virtual servers, none is returned, be it the API's or a cached one.
  pub get_servers-IsPhysical :
      (servers : List Server) (remote : Bool)
      → c.allow_virtual_server ≡ false
      → get_servers equal_fold api choose c count ≡ ok (servers, remote)
      → All (λ s. is_virtual_location s ≡ false) servers
  get_servers-IsPhysical servers remote v e =
      let (group, _, _, q) = get_servers-in_group (servers, remote) e in
      let (t, r) = get_servers_in_group-split group (servers, remote) q in
      not_virtual servers (
        cached_if_failed-IsPhysical group t.tag (from_remote equal_fold api c group count t) servers
          remote v r)
    where
      not_virtual :
          (ss : List Server) → All IsPhysical ss → All (λ s. is_virtual_location s ≡ false) ss
      not_virtual [] h = tt
      not_virtual (s ∷ ss) h = (ground (arith, h.0), not_virtual ss h.1)
