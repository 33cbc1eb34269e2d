-- ===== src/Auth/Sparing.antt =====
-- A property of the stored users that changing and deleting one user keep is kept by that user's renewal.
use nordvpn_linux.Prelude.{ℤ, List, ◌∷◌, Option, none, some}
use nordvpn_linux.Prelude.Action.{Keeps, Keeps-fail, keeps_rules}
use nordvpn_linux.Auth.{
  TokenData, AuthError, Call, Api, Account, Method, change_user, delete_user, answered, asking,
  saving, or_log_out, storing, trusting, renew_token_of, renew_trusted_pass_of,
  renew_vpn_credentials_of, renew,
}

module _ (api : Api) (Q : List (ℤ × TokenData) → Type 0) (u : ℤ)
    (changed : (f : TokenData → TokenData) (ts : List (ℤ × TokenData))
      → Q ts
      → Q (change_user u f ts))
    (deleted : (ts : List (ℤ × TokenData)) → Q ts → Q (delete_user u ts)) where
  abbrev Spares : Method → Type 0
  Spares m = Keeps (λ s. Q s.users) m

  asking-Spares :
      (c : Call) (on_error : AuthError → Method) (k : Method)
      → ((e : AuthError) → Spares (on_error e))
      → Spares k
      → Spares (asking api c on_error k)
  unfolding asking
  asking-Spares c on_error k he hk = record {
    at = λ s. go (api.answers s.calls c) (record s { calls = c ∷ s.calls });
  }
    where
      go :
          (r : Option AuthError) (s : Account)
          → Q s.users
          → Q (answered api on_error k (r, s)).1.users
      go none s h = hk.at s h
      go (some e) s h = (he e).at s h

  saving-Spares :
      (f : List (ℤ × TokenData) → List (ℤ × TokenData))
      → ((ts : List (ℤ × TokenData)) → Q ts → Q (f ts))
      → Spares (saving api f)
  unfolding saving
  saving-Spares f h = asking-Spares _ _ _ (λ e. Keeps-fail e) (record { at = λ s p. h s.users p })

  or_log_out-Spares : (k : Method) (e : AuthError) → Spares k → Spares (or_log_out api u k e)
  unfolding or_log_out
  or_log_out-Spares k e h = search (keeps_rules, saving-Spares, deleted) depth 8

  storing-Spares :
      (k : TokenData → Method) (d : TokenData)
      → ((d : TokenData) → Spares (k d))
      → Spares (storing api u k d)
  unfolding storing
  storing-Spares k d h = search (keeps_rules, saving-Spares, changed, h) depth 8

  trusting-Spares :
      (k : TokenData → Method) (d : TokenData)
      → ((d : TokenData) → Spares (k d))
      → Spares (trusting api u k d)
  unfolding trusting
  trusting-Spares k d h =
      search (keeps_rules, asking-Spares, or_log_out-Spares, storing-Spares, h) depth 10

  ruleset spares_rules =
      (keeps_rules, asking-Spares, or_log_out-Spares, storing-Spares, trusting-Spares)

  renew_token_of-Spares :
      (k : TokenData → Method) (d : TokenData)
      → ((d : TokenData) → Spares (k d))
      → Spares (renew_token_of api u k d)
  unfolding renew_token_of
  renew_token_of-Spares k d h = search (spares_rules, h) depth 14 fits 6000

  renew_vpn_credentials_of-Spares : (d : TokenData) → Spares (renew_vpn_credentials_of api u d)
  unfolding renew_vpn_credentials_of
  renew_vpn_credentials_of-Spares d = search (spares_rules, saving-Spares, changed) depth 12

  renew_trusted_pass_of-Spares :
      (k : TokenData → Method) (d : TokenData)
      → ((d : TokenData) → Spares (k d))
      → Spares (renew_trusted_pass_of api u k d)
  unfolding renew_trusted_pass_of
  renew_trusted_pass_of-Spares k d h = search (spares_rules, h) depth 12

  pub renew-Spares : (d : TokenData) → Keeps (λ s. Q s.users) (renew api u d)
  unfolding renew
  renew-Spares d =
      search (renew_token_of-Spares, renew_trusted_pass_of-Spares, renew_vpn_credentials_of-Spares)
        depth 8
