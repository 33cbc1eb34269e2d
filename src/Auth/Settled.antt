-- ===== src/Auth/Settled.antt =====
-- Where nothing fails, `IsLoggedIn` leaves nothing to renew.
use nordvpn_linux.Prelude.{
  ℤ, pos, int_eq, string_eq, Bool, true, false, not, ◌&&◌, ◌||◌, List, [], ◌∷◌, Option, none, some,
  ◌==◌, ◌≡◌, refl, ap, sym, subst, ◌∙◌, arith, Bool-cases, inl, inr,
}
use nordvpn_linux.Auth.Settling.{is_settled, renew-Settles}
use nordvpn_linux.Auth.Keys.{has_user, is_map, find_user-none, find_user-some, renew_all-is_map}
use nordvpn_linux.Auth.Renewing.{
  is_fresh, is_fresh_for, renew-fresh, renew-find_user, renew_all-find_user,
}
use nordvpn_linux.Auth.{
  TokenData, Call, load_config, Api, Account, find_user, is_expired, renew, renew_all, is_user,
  succeeded, logged_in, is_logged_in,
}

is_fresh_for-none :
    (api : Api) (v : ℤ) (ts : List (ℤ × TokenData))
    → has_user v ts ≡ false
    → is_fresh_for api v ts ≡ true
unfolding has_user is_fresh_for
is_fresh_for-none api v [] h = refl
is_fresh_for-none api v ((u, d) ∷ ts) h = ground (arith, is_fresh_for-none api v ts)

is_settled-cong :
    (api : Api) (v : ℤ) (ts us : List (ℤ × TokenData))
    → find_user v ts ≡ find_user v us
    → is_settled api v us ≡ true
    → is_settled api v ts ≡ true
unfolding is_settled
is_settled-cong api v ts us e h =
    ap (λ (o : Option TokenData). elim o [ none ↦ false | some d ↦ is_fresh api d ]) e ∙ h

-- what is found in the first list is found in the second
abbrev Included : List (ℤ × TokenData) → List (ℤ × TokenData) → Type 0
Included ts us = (v : ℤ) (d : TokenData) → find_user v ts ≡ some d → find_user v us ≡ some d

find_user-head :
    (u : ℤ) (d : TokenData) (ts : List (ℤ × TokenData)) → find_user u ((u, d) ∷ ts) ≡ some d
unfolding find_user
find_user-head u d ts = ground (arith, int_eq.beq_iff u u)

find_user-skip :
    (u v : ℤ) (d : TokenData) (ts : List (ℤ × TokenData))
    → (u == v) ≡ false
    → find_user v ((u, d) ∷ ts) ≡ find_user v ts
unfolding find_user
find_user-skip u v d ts differs = rw differs refl

find_user-empty : {A : Type 0} (v : ℤ) (d : TokenData) → find_user v [] ≡ some d → A
unfolding find_user
find_user-empty v d h = cc

is_map-tail :
    (u : ℤ) (d : TokenData) (ts : List (ℤ × TokenData))
    → is_map ((u, d) ∷ ts) ≡ true
    → (has_user u ts ≡ false) × (is_map ts ≡ true)
unfolding is_map
is_map-tail u d ts h = (ground arith, ground arith)

-- the key of a later entry is another one
find_user-tail :
    (u v : ℤ) (d e : TokenData) (ts : List (ℤ × TokenData))
    → is_map ((u, d) ∷ ts) ≡ true
    → find_user v ts ≡ some e
    → ((u == v) ≡ false) × (find_user v ((u, d) ∷ ts) ≡ some e)
find_user-tail u v d e ts h found = elim (Bool-cases (u == v)) [
  | inl same ↦
      let none_there =
        subst (λ w. has_user w ts ≡ false) ((int_eq.beq_iff u v).0 same) (is_map-tail u d ts h).0 in
      cc (find_user-none v ts none_there)
  | inr differs ↦ (differs, find_user-skip u v d ts differs ∙ found)
]

module _ (api : Api) (granted : (h : List Call) (c : Call) → api.answers h c ≡ none)
    (valid : (h : List Call) → is_expired api (api.login h).2 ≡ false)
    (trusted : (h : List Call) → ((api.trusted h).1 == "" || (api.trusted h).0 == "") ≡ false)
    (connects : (h : List Call)
      → ((api.vpn h).0 == "" || (api.vpn h).1 == "" || (api.vpn h).2 == "") ≡ false) where
  renew_all-Settles :
      (ts : List (ℤ × TokenData)) (s : Account)
      → is_map ts ≡ true
      → Included ts s.users
      → ((renew_all api ts s).0 ≡ true)
        × ((v : ℤ) (d : TokenData)
            → find_user v ts ≡ some d
            → is_settled api v (renew_all api ts s).1.users ≡ true)
  unfolding renew_all
  renew_all-Settles [] s h included = (refl, λ v d found. find_user-empty v d found)
  renew_all-Settles ((u, d) ∷ ts) s h included =
      let t = (renew api u d s).1 in
      let split = is_map-tail u d ts h in
      let now =
        renew-Settles api u granted valid trusted connects d s
          (included u d (find_user-head u d ts)) in
      let kept = λ (v : ℤ) (e : TokenData) (found : find_user v ts ≡ some e).
        (let later = find_user-tail u v d e ts h found in
          renew-find_user api u v d s (ap (λ c. not c || is_fresh api d) later.0)
          ∙ included v e later.1) in
      let rest = renew_all-Settles ts t split.1 kept in
      (
        ap (λ r. succeeded api r && (renew_all api ts t).0) now.0 ∙ rest.0,
        λ v e found. elim (Bool-cases (u == v)) [
          | inl same ↦
              subst (λ w. is_settled api w (renew_all api ts t).1.users ≡ true)
                ((int_eq.beq_iff u v).0 same)
                (is_settled-cong api u (renew_all api ts t).1.users t.users
                  (renew_all-find_user api u ts t (is_fresh_for-none api u ts split.0)) now.1)
          | inr differs ↦ rest.1 v e (sym (find_user-skip u v d ts differs) ∙ found)
        ],
      )

renew_all-fresh :
    (api : Api) (ts : List (ℤ × TokenData)) (s : Account)
    → is_map ts ≡ true
    → ((v : ℤ) (d : TokenData) → find_user v ts ≡ some d → is_fresh api d ≡ true)
    → renew_all api ts s ≡ (true, s)
unfolding renew_all
renew_all-fresh api [] s h fresh = refl
renew_all-fresh api ((u, d) ∷ ts) s h fresh =
    ap (λ r. (succeeded api r.0 && (renew_all api ts r.1).0, (renew_all api ts r.1).1))
      (renew-fresh api u d s (fresh u d (find_user-head u d ts)))
    ∙ renew_all-fresh api ts s (is_map-tail u d ts h).1
        (λ v e found. fresh v e (find_user-tail u v d e ts h found).1)

is_settled-fresh :
    (api : Api) (v : ℤ) (d : TokenData) (ts : List (ℤ × TokenData))
    → is_settled api v ts ≡ true
    → find_user v ts ≡ some d
    → is_fresh api d ≡ true
unfolding is_settled
is_settled-fresh api v d ts h e =
    sym (ap (λ (o : Option TokenData). elim o [ none ↦ false | some d ↦ is_fresh api d ]) e) ∙ h

all_true : (a b c : Bool) → c ≡ true → (a && b && c) ≡ (a && b)
all_true true true c h = h
all_true true false c h = refl
all_true false b c h = refl

-- a call whose load succeeds
is_logged_in-loaded :
    (api : Api) (s : Account)
    → api.answers s.calls load_config ≡ none
    → is_logged_in api s ≡ logged_in api (none, record s { calls = load_config ∷ s.calls })
unfolding is_logged_in
is_logged_in-loaded api s h =
    ap (λ r. logged_in api (r, record s { calls = load_config ∷ s.calls })) h

-- Where no call fails, the API gives out tokens that are not expired and credentials that are not empty,
-- and the keys of the users are distinct: `IsLoggedIn` answers whether there is a user and the settings
-- name one, each user that was there is still there and has nothing to renew, and the next `IsLoggedIn`
-- only loads the settings.
pub is_logged_in-settled :
    (api : Api)
    → ((h : List Call) (c : Call) → api.answers h c ≡ none)
    → ((h : List Call) → is_expired api (api.login h).2 ≡ false)
    → ((h : List Call) → ((api.trusted h).1 == "" || (api.trusted h).0 == "") ≡ false)
    → ((h : List Call)
        → ((api.vpn h).0 == "" || (api.vpn h).1 == "" || (api.vpn h).2 == "") ≡ false)
    → (s : Account) → is_map s.users ≡ true
    → let t = (is_logged_in api s).1 in
      ((is_logged_in api s).0 ≡ (not (s.id == pos 0) && is_user api s.users))
      × ((v : ℤ) → has_user v s.users ≡ true → is_settled api v t.users ≡ true)
      × (is_logged_in api t ≡ (
        not (t.id == pos 0) && is_user api t.users,
        record t { calls = load_config ∷ t.calls },
      ))
is_logged_in-settled api granted valid trusted connects s distinct =
    let start = record s { calls = load_config ∷ s.calls } in
    let first = is_logged_in-loaded api s (granted _ _) in
    let done =
      renew_all-Settles api granted valid trusted connects s.users start distinct
        (λ v d found. found) in
    let t = (renew_all api s.users start).1 in
    let settled : ((v : ℤ) → has_user v s.users ≡ true → is_settled api v t.users ≡ true) =
      (λ v h. let there = find_user-some v s.users h in done.1 v there.0 there.1) in
    let fresh : ((v : ℤ) (d : TokenData) → find_user v t.users ≡ some d → is_fresh api d ≡ true) =
      (λ v d found. elim (Bool-cases (has_user v s.users)) [
        | inl there ↦ is_settled-fresh api v d t.users (settled v there) found
        | inr absent ↦ cc (
          renew_all-find_user api v s.users start (is_fresh_for-none api v s.users absent),
          find_user-none v s.users absent,
        )
      ]) in
    let again =
      renew_all-fresh api t.users (record t { calls = load_config ∷ t.calls })
        (renew_all-is_map api s.users start distinct) fresh in
    let second =
      is_logged_in-loaded api t (granted _ _)
      ∙ ap (λ r. (not (t.id == pos 0) && is_user api t.users && r.0, r.1)) again in
    (
      ap (λ r. r.0) first ∙ all_true (not (s.id == pos 0)) (is_user api s.users) _ done.0,
      subst (λ r. (v : ℤ) → has_user v s.users ≡ true → is_settled api v r.1.users ≡ true)
          (sym first) settled,
      subst
          (λ r. is_logged_in api r.1 ≡ (
            not (r.1.id == pos 0) && is_user api r.1.users,
            record r.1 { calls = load_config ∷ r.1.calls },
          ))
          (sym first)
          (second
            ∙ ap (λ c. (c, record t { calls = load_config ∷ t.calls }))
                (all_true (not (t.id == pos 0)) (is_user api t.users) true refl)),
    )
