-- ===== src/Auth/Rejecting.antt =====
-- What `IsLoggedIn` reports where a renewal is rejected.
use nordvpn_linux.Prelude.{
  ℤ, pos, int_eq, true, false, not, ◌&&◌, [], ◌∷◌, Option, none, some, if◌then◌else◌, string_eq,
  ◌==◌, ◌≡◌, ap, ◌∙◌, arith,
}
use nordvpn_linux.Prelude.Action.{succeed}
use nordvpn_linux.Auth.Steps.{saving-saved, asking-refused}
use nordvpn_linux.Auth.{
  TokenData, AuthError, load_config, save_config, renew_login, Api, Account, Method, delete_user,
  is_rejected, is_expired, saving, or_log_out, renew_token_of, renew, renew_all, is_user, succeeded,
  logged_in, is_logged_in,
}

module _ (api : Api) where
  or_log_out-rejected :
      (u : ℤ) (k : Method) (e : AuthError) (s : Account)
      → is_rejected e ≡ true
      → api.answers s.calls save_config ≡ none
      → or_log_out api u k e s
        ≡ (none, record s { users = delete_user u s.users; calls = save_config ∷ s.calls })
  unfolding or_log_out
  or_log_out-rejected u k e s rejected saved =
      ap (λ c. (if c then saving api (delete_user u) else k) s) rejected
      ∙ saving-saved api (delete_user u) s saved

  renew-rejected :
      (u : ℤ) (d : TokenData) (s : Account) (e : AuthError)
      → is_expired api d.token_expiry ≡ true
      → api.answers s.calls (renew_login d.renew_token) ≡ some e
      → is_rejected e ≡ true
      → api.answers (renew_login d.renew_token ∷ s.calls) save_config ≡ none
      → renew api u d s ≡ (
        none,
        record s {
          users = delete_user u s.users;
          calls = save_config ∷ renew_login d.renew_token ∷ s.calls;
        },
      )
  unfolding renew renew_token_of
  renew-rejected u d s e expired refused rejected saved = rw expired (
      asking-refused api (renew_login d.renew_token) _ _ s e refused
      ∙ or_log_out-rejected u succeed e (record s { calls = renew_login d.renew_token ∷ s.calls })
          rejected saved)

  delete_user-only : (u : ℤ) (d : TokenData) → delete_user u ((u, d) ∷ []) ≡ []
  unfolding delete_user
  delete_user-only u d = ground (arith, int_eq.beq_iff u u)

  logged_in-only :
      (s : Account) (u : ℤ) (d : TokenData) (t : Account)
      → s.users ≡ (u, d) ∷ []
      → renew api u d s ≡ (none, t)
      → logged_in api (none, s) ≡ (not (s.id == pos 0) && true && (true && true), t)
  unfolding renew_all
  logged_in-only s u d t only renewed =
      ap
        (λ ts.
          (not (s.id == pos 0) && is_user api ts && (renew_all api ts s).0, (renew_all api ts s).1))
        only
      ∙ ap
          (λ (r : Option AuthError × Account).
            (not (s.id == pos 0) && true && (succeeded api r.0 && true), r.1))
          renewed

-- Where the only user's token is expired, the API rejects its renewal and the settings are saved,
-- `IsLoggedIn` removes the user from the settings and still answers that the user is logged in.
pub is_logged_in-removed :
    (api : Api) (s : Account) (u : ℤ) (d : TokenData) (e : AuthError)
    → s.users ≡ (u, d) ∷ []
    → (s.id == pos 0) ≡ false
    → api.answers s.calls load_config ≡ none
    → is_expired api d.token_expiry ≡ true
    → api.answers (load_config ∷ s.calls) (renew_login d.renew_token) ≡ some e
    → is_rejected e ≡ true
    → api.answers (renew_login d.renew_token ∷ load_config ∷ s.calls) save_config ≡ none
    → ((is_logged_in api s).0 ≡ true) × ((is_logged_in api s).1.users ≡ [])
unfolding is_logged_in
is_logged_in-removed api s u d e only id load expired refused rejected saved =
    let t = record s { calls = load_config ∷ s.calls } in
    let whole =
      ap (λ r. logged_in api (r, t)) load
      ∙ logged_in-only api t u d _ only
          (renew-rejected api u d t e expired refused rejected saved) in
    (
      ap (λ r. r.0) whole ∙ ap (λ c. not c && true && (true && true)) id,
      ap (λ r. r.1.users) whole ∙ ap (delete_user u) only ∙ delete_user-only api u d,
    )
