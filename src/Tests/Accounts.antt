-- ===== src/Tests/Accounts.antt =====
-- Examples of the login.
use nordvpn_linux.Prelude.{
  filter, ℤ, int_eq, pos, true, false, not, ◌&&◌, [], ◌∷◌, Option, none, some, ◌≡◌, refl, string_eq,
  ◌==◌,
}
use nordvpn_linux.Auth.{
  TokenData, no_data, AuthError, unauthorized, Call, renew_login, load_config, is_user, Api,
  Account, find_user, is_logged_in,
}
use nordvpn_linux.Auth.Renewing.{is_logged_in-find_user}
use nordvpn_linux.Auth.Rejecting.{is_logged_in-removed}
use nordvpn_linux.Auth.Keys.{has_user}
use nordvpn_linux.Auth.Settling.{is_settled}
use nordvpn_linux.Auth.Settled.{is_logged_in-settled}
use nordvpn_linux.Auth.Services.{is_vpn_expired, get_dedicated_ip_services}

-- every renewal of a login is rejected
abbrev rejects : Call → Option AuthError
rejects (renew_login token) = some unauthorized
rejects _ = none

abbrev strict : Api
strict = record {
  answers = λ calls c. rejects c;
  login = λ calls. ("t2", "r2", "2027");
  notifications = λ calls. ("mqtt", "nc", "pw");
  trusted = λ calls. ("owner", "pass");
  vpn = λ calls. ("key", "user", "pw");
  services = λ calls.
      record { expires_at = "2027"; service_id = pos 1; servers = [] }
      ∷ record { expires_at = "2027"; service_id = pos 11; servers = pos 7 ∷ [] }
      ∷ [];
  mfa = λ calls. true;
  has_passed = λ date. date == "2020";
}

abbrev old : TokenData
old = record no_data { token = "t1"; renew_token = "r1"; token_expiry = "2020" }

abbrev current : TokenData
current = record no_data {
  token = "t1";
  token_expiry = "2027";
  nordlynx_private_key = "key";
  openvpn_username = "user";
  openvpn_password = "pw";
}

abbrev two_users : Account
two_users = record {
  id = pos 5;
  users = (pos 4, old) ∷ (pos 5, current) ∷ [];
  calls = [];
  published = [];
}

abbrev one_user : Account
one_user = record two_users { users = (pos 5, old) ∷ [] }

is_logged_in-find_user_example :
    find_user (pos 5) (is_logged_in strict two_users).1.users ≡ find_user (pos 5) two_users.users
unfolding nordvpn_linux.Auth.Renewing.is_fresh_for
is_logged_in-find_user_example = is_logged_in-find_user strict (pos 5) two_users refl

is_logged_in-removed_example :
    ((is_logged_in strict one_user).0 ≡ true) × ((is_logged_in strict one_user).1.users ≡ [])
unfolding nordvpn_linux.Auth.is_expired
is_logged_in-removed_example =
    is_logged_in-removed strict one_user (pos 5) old unauthorized refl refl refl refl refl refl refl

-- nothing fails
abbrev generous : Api
generous = record strict { answers = λ calls c. none }

is_logged_in-settled_example :
    let t = (is_logged_in generous two_users).1 in
    ((is_logged_in generous two_users).0
      ≡ (not (two_users.id == pos 0) && is_user generous two_users.users))
    × ((v : ℤ) → has_user v two_users.users ≡ true → is_settled generous v t.users ≡ true)
    × (is_logged_in generous t ≡ (
      not (t.id == pos 0) && is_user generous t.users,
      record t { calls = load_config ∷ t.calls },
    ))
unfolding nordvpn_linux.Auth.is_expired nordvpn_linux.Auth.Keys.is_map
is_logged_in-settled_example =
    is_logged_in-settled generous (λ h c. refl) (λ h. refl) (λ h. refl) (λ h. refl) two_users refl

-- the date of the service is fetched
vpn_not_expired : (is_vpn_expired strict two_users).0 ≡ (false, none)
unfolding is_vpn_expired find_user
vpn_not_expired = refl

dedicated :
    (get_dedicated_ip_services strict two_users).0
    ≡ some (record { expires_at = "2027"; server_id = pos 7 } ∷ [])
unfolding get_dedicated_ip_services filter
dedicated = refl
