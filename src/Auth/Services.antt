-- ===== src/Auth/Services.antt =====
-- The services of the account: `IsVPNExpired`, `IsMFAEnabled` and `GetDedicatedIPServices` of auth/auth.go.
use nordvpn_linux.Prelude.{
  ℤ, pos, int_eq, Bool, true, false, not, ◌&&◌, List, [], ◌∷◌, map, filter, String, Option, none,
  some, if◌then◌else◌, ◌==◌,
}
use nordvpn_linux.Servers.Dedicated.{no_server_selected}
use nordvpn_linux.Auth.{
  TokenData, no_data, ServiceData, DedicatedIpService, AuthError, Call, load_config, fetch_services,
  mfa_status, Api, Account, find_user, change_user, save_vpn_expiration_date, is_expired, saving,
}

abbrev or_no_data : Option TokenData → TokenData
or_no_data none = no_data
or_no_data (some d) = d

-- cfg.TokensData[cfg.AutoConnectData.ID]
abbrev data_of : Account → TokenData
data_of s = or_no_data (find_user s.id s.users)

-- VPNServiceID and DedicatedIPServiceID
abbrev vpn_service_id : ℤ
vpn_service_id = pos 1

abbrev dedicated_ip_service_id : ℤ
dedicated_ip_service_id = pos 11

-- the expiry of the last VPN service, where there is one
unfoldable pub vpn_expiry : List ServiceData → String → String
vpn_expiry [] date = date
vpn_expiry (s ∷ ss) date =
    vpn_expiry ss (if s.service_id == vpn_service_id then s.expires_at else date)

abbrev first_server : List ℤ → ℤ
first_server [] = no_server_selected
first_server (id ∷ ids) = id

module _ (api : Api) where
  abbrev call : Call → Account → Option AuthError × Account
  call c s = (api.answers s.calls c, record s { calls = c ∷ s.calls })

  abbrev fetched :
      ℤ → TokenData → Option AuthError × Account → (Option AuthError × TokenData) × Account
  fetched u d (some e, s) = ((some e, d), s)
  fetched u d (none, s) =
      let d' = record d { service_expiry = vpn_expiry (api.services s.calls) d.service_expiry } in
      let (r, s') = saving api (change_user u (save_vpn_expiration_date d')) s in ((r, d'), s')

  -- the error, and the data with its new expiry
  unfoldable pub fetch_save_services :
      ℤ → TokenData → Account → (Option AuthError × TokenData) × Account
  unfolding saving vpn_expiry change_user save_vpn_expiration_date
  fetch_save_services u d s = fetched u d (call (fetch_services d.token) s)

  abbrev vpn_checked :
      (Option AuthError × TokenData) × Account → (Bool × Option AuthError) × Account
  vpn_checked ((some e, d), s) = ((true, some e), s)
  vpn_checked ((none, d), s) = ((is_expired api d.service_expiry, none), s)

  abbrev vpn_loaded : Option AuthError × Account → (Bool × Option AuthError) × Account
  vpn_loaded (some e, s) = ((true, some e), s)
  vpn_loaded (none, s) =
      let d = data_of s in
      vpn_checked
        (if is_expired api d.service_expiry then fetch_save_services s.id d s else ((none, d), s))

  -- `IsVPNExpired`: the answer and the error
  unfoldable pub is_vpn_expired : Account → (Bool × Option AuthError) × Account
  unfolding is_expired fetch_save_services
  is_vpn_expired s = vpn_loaded (call load_config s)

  abbrev told : Option AuthError × Account → (Bool × Option AuthError) × Account
  told (some e, s) = ((false, some e), s)
  told (none, s) = ((api.mfa s.calls, none), record s { published = api.mfa s.calls ∷ s.published })

  abbrev mfa_loaded : Option AuthError × Account → (Bool × Option AuthError) × Account
  mfa_loaded (some e, s) = ((false, some e), s)
  mfa_loaded (none, s) = told (call (mfa_status ((data_of s).token)) s)

  -- `IsMFAEnabled`
  unfoldable pub is_mfa_enabled : Account → (Bool × Option AuthError) × Account
  is_mfa_enabled s = mfa_loaded (call load_config s)

  -- the dedicated IP services that are not expired
  unfoldable pub dedicated_of : List ServiceData → List DedicatedIpService
  unfolding is_expired
  dedicated_of services =
      map (λ s. record { expires_at = s.expires_at; server_id = first_server s.servers })
        (filter
          (λ (s : ServiceData).
            s.service_id == dedicated_ip_service_id && not (is_expired api s.expires_at))
          services)

  abbrev listed : Option AuthError × Account → Option (List DedicatedIpService) × Account
  listed (some e, s) = (none, s)
  listed (none, s) = (some (dedicated_of (api.services s.calls)), s)

  abbrev services_loaded : Option AuthError × Account → Option (List DedicatedIpService) × Account
  services_loaded (some e, s) = (none, s)
  services_loaded (none, s) = listed (call (fetch_services ((data_of s).token)) s)

  -- `GetDedicatedIPServices`: none is an error
  unfoldable pub get_dedicated_ip_services : Account → Option (List DedicatedIpService) × Account
  unfolding dedicated_of
  get_dedicated_ip_services s = services_loaded (call load_config s)
