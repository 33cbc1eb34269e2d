-- ===== src/Auth/Renewing.antt =====
-- What the renewal of the logins leaves alone.
use nordvpn_linux.Prelude.{
  ℤ, int_eq, Bool, true, false, not, ◌&&◌, ◌||◌, List, [], ◌∷◌, Option, none, some, string_eq, ◌==◌,
  ◌≡◌, refl, ap, ◌∙◌, arith, Bool-cases, inl, inr,
}
use nordvpn_linux.Prelude.Action.{succeed}
use nordvpn_linux.Auth.Sparing.{renew-Spares}
use nordvpn_linux.Auth.{
  TokenData, AuthError, load_config, Api, Account, find_user, change_user, delete_user, is_expired,
  renew_token_of, renew_trusted_pass_of, renew_vpn_credentials_of, renew, renew_all, logged_in,
  is_logged_in,
}

-- nothing of the user's data has to be renewed
unfoldable pub is_fresh : Api → TokenData → Bool
unfolding is_expired
is_fresh api d =
    not (is_expired api d.token_expiry)
    && (not (d.is_oauth && (d.trusted_pass_token == "" || d.trusted_pass_owner_id == ""))
        && not
            (d.nordlynx_private_key == "" || d.openvpn_username == "" || d.openvpn_password == ""))

-- the data of one user, in the order in which the map is gone through
unfoldable pub is_fresh_for : Api → ℤ → List (ℤ × TokenData) → Bool
unfolding is_fresh
is_fresh_for api v [] = true
is_fresh_for api v ((u, d) ∷ ts) = (not (u == v) || is_fresh api d) && is_fresh_for api v ts

pub change_user-find_user :
    (u v : ℤ) (f : TokenData → TokenData) (ts : List (ℤ × TokenData))
    → (u == v) ≡ false
    → find_user v (change_user u f ts) ≡ find_user v ts
unfolding find_user change_user
change_user-find_user u v f [] h = rw h refl
change_user-find_user u v f ((w, d) ∷ ts) h = ground (
  arith,
  change_user-find_user u v f ts h,
  int_eq.beq_iff w u,
  int_eq.beq_iff w v,
  int_eq.beq_iff u v,
)

delete_user-find_user :
    (u v : ℤ) (ts : List (ℤ × TokenData))
    → (u == v) ≡ false
    → find_user v (delete_user u ts) ≡ find_user v ts
unfolding find_user delete_user
delete_user-find_user u v [] h = refl
delete_user-find_user u v ((w, d) ∷ ts) h = ground (
  arith,
  delete_user-find_user u v ts h,
  int_eq.beq_iff w u,
  int_eq.beq_iff w v,
  int_eq.beq_iff u v,
)

pub renew-fresh :
    (api : Api) (u : ℤ) (d : TokenData) (s : Account)
    → is_fresh api d ≡ true
    → renew api u d s ≡ (none, s)
unfolding is_fresh renew renew_token_of renew_trusted_pass_of renew_vpn_credentials_of succeed
renew-fresh api u d s h = ground arith

-- one user's renewal leaves what is found for `v`: another user's, or one that needs none
pub renew-find_user :
    (api : Api) (u v : ℤ) (d : TokenData) (s : Account)
    → (not (u == v) || is_fresh api d) ≡ true
    → find_user v (renew api u d s).1.users ≡ find_user v s.users
renew-find_user api u v d s h = elim (Bool-cases (u == v)) [
  | inl same ↦ ap (λ r. find_user v r.1.users) (renew-fresh api u d s (ground arith))
  | inr differs ↦
      (renew-Spares api (λ ts. find_user v ts ≡ find_user v s.users) u
          (λ f ts e. change_user-find_user u v f ts differs ∙ e)
          (λ ts e. delete_user-find_user u v ts differs ∙ e) d).at
        s refl
]

pub renew_all-find_user :
    (api : Api) (v : ℤ) (ts : List (ℤ × TokenData)) (s : Account)
    → is_fresh_for api v ts ≡ true
    → find_user v (renew_all api ts s).1.users ≡ find_user v s.users
unfolding is_fresh_for renew_all
renew_all-find_user api v [] s h = refl
renew_all-find_user api v ((u, d) ∷ ts) s h =
    renew_all-find_user api v ts (renew api u d s).1 (ground arith)
    ∙ renew-find_user api u v d s (ground arith)

-- `IsLoggedIn` leaves the data of a user that needs no renewal as it is in the settings, whatever
-- happens to the other users and whatever the API and the settings file answer.
pub is_logged_in-find_user :
    (api : Api) (v : ℤ) (s : Account)
    → is_fresh_for api v s.users ≡ true
    → find_user v (is_logged_in api s).1.users ≡ find_user v s.users
unfolding is_logged_in
is_logged_in-find_user api v s h =
    go (api.answers s.calls load_config) (record s { calls = load_config ∷ s.calls }) h
  where
    go :
        (r : Option AuthError) (t : Account)
        → is_fresh_for api v t.users ≡ true
        → find_user v (logged_in api (r, t)).1.users ≡ find_user v t.users
    go none t h = renew_all-find_user api v t.users t h
    go (some e) t h = refl
