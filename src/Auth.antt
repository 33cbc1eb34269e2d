-- ===== src/Auth.antt =====
-- The login of the users: `RenewingChecker` of auth/auth.go. A call runs at one instant: an expiry date is
-- passed or not.
pub mod Steps
pub mod Sparing
pub mod Renewing
pub mod Rejecting
pub mod Settling
pub mod Keys
pub mod Settled
pub mod Services
use nordvpn_linux.Prelude.{
  ℤ, pos, int_eq, Bool, true, false, not, ◌&&◌, ◌||◌, List, [], ◌∷◌, map, filter, String, Option,
  none, some, if◌then◌else◌, string_eq, ◌==◌,
}
use nordvpn_linux.Prelude.Action.{Action, succeed, fail, reading, ◌>>◌}
use nordvpn_linux.Servers.Dedicated.{no_server_selected}

-- config.TokenData with its NCData
pub record TokenData : Type 0 where
  pub token : String
  pub token_expiry : String
  pub renew_token : String
  pub is_oauth : Bool
  pub trusted_pass_token : String
  pub trusted_pass_owner_id : String
  pub service_expiry : String
  pub nordlynx_private_key : String
  pub openvpn_username : String
  pub openvpn_password : String
  pub nc_user_id : String
  pub nc_username : String
  pub nc_password : String
  pub nc_endpoint : String

-- the value of a missing key
abbrev pub no_data : TokenData
no_data = record {
  token = "";
  token_expiry = "";
  renew_token = "";
  is_oauth = false;
  trusted_pass_token = "";
  trusted_pass_owner_id = "";
  service_expiry = "";
  nordlynx_private_key = "";
  openvpn_username = "";
  openvpn_password = "";
  nc_user_id = "";
  nc_username = "";
  nc_password = "";
  nc_endpoint = "";
}

-- core.ServiceData, its servers by their identifiers
pub record ServiceData : Type 0 where
  pub expires_at : String
  pub service_id : ℤ
  pub servers : List ℤ

pub record DedicatedIpService : Type 0 where
  pub expires_at : String
  pub server_id : ℤ

pub data AuthError : Type 0 where
  unauthorized not_found bad_request other : AuthError

pub data Call : Type 0 where
  load_config save_config : Call
  renew_login trusted_pass service_credentials fetch_services mfa_status : String → Call
  notification_credentials : String → String → Call

-- What the API and the settings file answer, by the calls made before, and the clock.
pub record Api : Type 0 where
  pub answers : List Call → Call → Option AuthError
  -- the token, the token to renew it with, and its expiry
  pub login : List Call → String × String × String
  -- endpoint, username and password
  pub notifications : List Call → String × String × String
  -- owner and token
  pub trusted : List Call → String × String
  -- NordLynx key, username and password
  pub vpn : List Call → String × String × String
  pub services : List Call → List ServiceData
  pub mfa : List Call → Bool
  -- the text is no date, or the date has passed
  pub has_passed : String → Bool

-- the settings that the checker reads and changes: AutoConnectData.ID and TokensData
pub record Account : Type 0 where
  pub id : ℤ
  pub users : List (ℤ × TokenData)
  pub calls : List Call
  -- the latest first
  pub published : List Bool

abbrev pub Method : Type 0
Method = Action AuthError Account

unfoldable pub find_user : ℤ → List (ℤ × TokenData) → Option TokenData
find_user u [] = none
find_user u ((v, d) ∷ ts) = if v == u then some d else find_user u ts

-- the user's data in the map, changed
unfoldable pub change_user :
    ℤ → (TokenData → TokenData) → List (ℤ × TokenData) → List (ℤ × TokenData)
change_user u f [] = (u, f no_data) ∷ []
change_user u f ((v, d) ∷ ts) = if v == u then (v, f d) ∷ ts else (v, d) ∷ change_user u f ts

-- `Logout`
unfoldable pub delete_user : ℤ → List (ℤ × TokenData) → List (ℤ × TokenData)
delete_user u [] = []
delete_user u ((v, d) ∷ ts) = let rest = delete_user u ts in if v == u then rest else (v, d) ∷ rest

unfoldable pub save_login_token : TokenData → TokenData → TokenData
save_login_token d user = record user {
  token = d.token;
  renew_token = d.renew_token;
  token_expiry = d.token_expiry;
  nc_endpoint = d.nc_endpoint;
  nc_username = d.nc_username;
  nc_password = d.nc_password;
  trusted_pass_owner_id = d.trusted_pass_owner_id;
  trusted_pass_token = d.trusted_pass_token;
}

unfoldable pub save_vpn_expiration_date : TokenData → TokenData → TokenData
save_vpn_expiration_date d user = record user { service_expiry = d.service_expiry }

unfoldable pub save_vpn_server_credentials : TokenData → TokenData → TokenData
save_vpn_server_credentials d user = record user {
  nordlynx_private_key = d.nordlynx_private_key;
  openvpn_username = d.openvpn_username;
  openvpn_password = d.openvpn_password;
}

-- the errors that end the session
abbrev pub is_rejected : AuthError → Bool
is_rejected other = false
is_rejected _ = true

module _ (api : Api) where
  unfoldable pub is_expired : String → Bool
  is_expired date = if date == "" then true else api.has_passed date

  abbrev pub answered :
      (AuthError → Method) → Method → Option AuthError × Account → Option AuthError × Account
  answered on_error k (none, s) = k s
  answered on_error k (some e, s) = on_error e s

  -- a call, what its error leads to, and what its success leads to
  unfoldable pub asking : Call → (AuthError → Method) → Method → Method
  asking c on_error k s =
      answered on_error k (api.answers s.calls c, record s { calls = c ∷ s.calls })

  -- r.cm.SaveWith
  unfoldable pub saving : (List (ℤ × TokenData) → List (ℤ × TokenData)) → Method
  unfolding asking
  saving f = asking save_config fail (λ s. (none, record s { users = f s.users }))

  -- an error that ends the session logs the user out, whatever would follow
  unfoldable pub or_log_out : ℤ → Method → AuthError → Method
  unfolding saving delete_user
  or_log_out u k e = if is_rejected e then saving (delete_user u) else k

  abbrev with_login : String × String × String → TokenData → TokenData
  with_login (token, renew_token, expiry) d = record d {
    token = token;
    renew_token = renew_token;
    token_expiry = expiry;
  }

  abbrev with_notifications : String × String × String → TokenData → TokenData
  with_notifications (endpoint, username, password) d = record d {
    nc_endpoint = endpoint;
    nc_username = username;
    nc_password = password;
  }

  abbrev with_trusted : String × String → TokenData → TokenData
  with_trusted (owner, token) d = record d {
    trusted_pass_owner_id = owner;
    trusted_pass_token = token;
  }

  abbrev with_vpn : String × String × String → TokenData → TokenData
  with_vpn (key, username, password) d = record d {
    nordlynx_private_key = key;
    openvpn_username = username;
    openvpn_password = password;
  }

  -- SaveWith(saveLoginToken(uid, data)), and what follows
  unfoldable pub storing : ℤ → (TokenData → Method) → TokenData → Method
  unfolding saving change_user save_login_token
  storing u k d = do saving (change_user u (save_login_token d)); k d

  -- the trusted pass is renewed; an error that does not end the session changes nothing
  unfoldable pub trusting : ℤ → (TokenData → Method) → TokenData → Method
  unfolding asking or_log_out storing
  trusting u k d =
      asking (trusted_pass d.token) (or_log_out u (storing u k d))
        (reading λ s. storing u k (with_trusted (api.trusted s.calls) d))

  -- the part of `renew` that is about an expired token
  unfoldable pub renew_token_of : ℤ → (TokenData → Method) → TokenData → Method
  unfolding is_expired asking or_log_out storing trusting
  renew_token_of u k d =
      if not (is_expired d.token_expiry)
      then k d
      else asking (renew_login d.renew_token) (or_log_out u succeed) (
          reading λ s.
            let d = with_login (api.login s.calls) d in
            asking (notification_credentials d.token d.nc_user_id) (or_log_out u succeed) (
              reading λ s.
                let d = with_notifications (api.notifications s.calls) d in
                if d.is_oauth then trusting u k d else storing u k d))

  -- the trusted pass of an old login
  unfoldable pub renew_trusted_pass_of : ℤ → (TokenData → Method) → TokenData → Method
  unfolding trusting
  renew_trusted_pass_of u k d =
      if d.is_oauth && (d.trusted_pass_token == "" || d.trusted_pass_owner_id == "")
      then trusting u k d
      else k d

  unfoldable pub renew_vpn_credentials_of : ℤ → TokenData → Method
  unfolding asking saving change_user save_vpn_server_credentials
  renew_vpn_credentials_of u d =
      if d.nordlynx_private_key == "" || d.openvpn_username == "" || d.openvpn_password == ""
      then asking (service_credentials d.token) fail (
          reading λ s.
            saving (change_user u (save_vpn_server_credentials (with_vpn (api.vpn s.calls) d))))
      else succeed

  unfoldable pub renew : ℤ → TokenData → Method
  unfolding renew_token_of renew_trusted_pass_of renew_vpn_credentials_of
  renew u d = renew_token_of u (renew_trusted_pass_of u (renew_vpn_credentials_of u)) d

  abbrev pub succeeded : Option AuthError → Bool
  succeeded none = true
  succeeded (some e) = false

  -- the loop over the users, in any order: all of them are renewed, whatever the errors
  unfoldable pub renew_all : List (ℤ × TokenData) → Account → Bool × Account
  unfolding renew
  renew_all [] s = (true, s)
  renew_all ((u, d) ∷ ts) s =
      let (r, s') = renew u d s in let (all, s'') = renew_all ts s' in (succeeded r && all, s'')

  abbrev pub is_user : List (ℤ × TokenData) → Bool
  is_user [] = false
  is_user (t ∷ ts) = true

  abbrev pub logged_in : Option AuthError × Account → Bool × Account
  logged_in (some e, s) = (false, s)
  logged_in (none, s) =
      let (renewed, s') = renew_all s.users s in
      (not (s.id == pos 0) && is_user s.users && renewed, s')

  -- `IsLoggedIn`
  unfoldable pub is_logged_in : Account → Bool × Account
  unfolding renew_all
  is_logged_in s =
      logged_in (api.answers s.calls load_config, record s { calls = load_config ∷ s.calls })
