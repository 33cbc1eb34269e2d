-- ===== src/Meshnet/Invitations.antt =====
-- Invitations: meshnet/server.go. The event of a click is left out.
use nordvpn_linux.Prelude.{
  not, List, String, Option, none, some, find, if◌then◌else◌, string_eq, ◌==◌,
}
use nordvpn_linux.Prelude.Action.{succeed, fail, reading, ◌>>◌}
use nordvpn_linux.Networker.Mesh
use nordvpn_linux.Meshnet.{
  Backend, Server, Settings, Invitation, Permissions, Handler, ApiError, Request, unauthorized,
  too_many_requests, maximum_device_count, conflict, bad_email, own_email, asking, requiring_login,
  loading, log_out, or_log_out, with_device, on_networker, send_invitation, list_received,
  list_sent, accept_invitation, reject_invitation, revoke_invitation, map_peers, not_registered,
  not_enabled, api_failure, lib_failure, no_such_invitation, limit_reached, peer_count,
  already_exists, invalid_email, same_account_email, device_count, invites,
}
use nordvpn_linux.Meshnet.Registration.{requiring_registration}

module _ (b : Backend) where
  -- what the handlers of invitations have in common: the settings, and the device's identifier
  unfoldable pub enabled : (Settings → String → Handler) → Handler
  unfolding requiring_login requiring_registration loading with_device
  enabled k = do
    requiring_login b
    requiring_registration b not_registered
    loading b λ cfg.
        if not cfg.mesh then fail not_enabled else with_device b cfg λ device. k cfg device.id

  unfoldable pub on_invite_error : ApiError → Handler
  unfolding log_out
  on_invite_error too_many_requests = fail limit_reached
  on_invite_error maximum_device_count = fail peer_count
  on_invite_error conflict = fail already_exists
  on_invite_error bad_email = fail invalid_email
  on_invite_error own_email = fail same_account_email
  on_invite_error unauthorized = log_out b
  on_invite_error _ = fail api_failure

  unfoldable pub invite : String → Permissions → Handler
  unfolding enabled asking on_invite_error
  invite email allowed = enabled λ cfg device.
      asking b (send_invitation cfg.token device email allowed) on_invite_error succeed

  abbrev pub or_no_such : Option Invitation → (Invitation → Handler) → Handler
  or_no_such none k = fail no_such_invitation
  or_no_such (some i) k = k i

  -- the first invitation with the address, among those that a request lists
  unfoldable pub with_invitation :
      (Settings → String → Request)
      → (Server → List Invitation)
      → String
      → (Settings → String → Invitation → Handler)
      → Handler
  unfolding enabled asking or_log_out
  with_invitation request listed email k = enabled λ cfg device.
      asking b (request cfg device) (or_log_out b api_failure) (
        reading
          λ s. or_no_such (find (λ (i : Invitation). i.email == email) (listed s)) (k cfg device))

  unfoldable pub on_accept_error : ApiError → Handler
  on_accept_error maximum_device_count = fail device_count
  on_accept_error _ = fail api_failure

  unfoldable pub accept_invite : String → Permissions → Handler
  unfolding with_invitation asking on_accept_error on_networker
  accept_invite email allowed =
      with_invitation (λ cfg device. list_received cfg.token device) (λ s. b.received s.requests)
        email
        λ cfg device i. do
          asking b (accept_invitation cfg.token device i.id allowed) on_accept_error succeed
          asking b (map_peers cfg.token device) (λ e. fail api_failure)
              (reading
                λ s. on_networker b (Mesh.refresh b.world (b.machine_map s.requests)) lib_failure)

  unfoldable pub deny_invite : String → Handler
  unfolding with_invitation asking
  deny_invite email =
      with_invitation (λ cfg device. list_received cfg.token device) (λ s. b.received s.requests)
        email
        λ cfg device i.
          asking b (reject_invitation cfg.token device i.id) (λ e. fail api_failure) succeed

  unfoldable pub revoke_invite : String → Handler
  unfolding with_invitation asking
  revoke_invite email =
      with_invitation (λ cfg device. list_sent cfg.token device) (λ s. b.sent s.requests) email
        λ cfg device i.
          asking b (revoke_invitation cfg.token device i.id) (λ e. fail api_failure) succeed

  -- the received and the sent ones
  unfoldable pub get_invites : Handler
  unfolding enabled asking or_log_out
  get_invites = enabled λ cfg device.
      asking b (list_received cfg.token device) (or_log_out b api_failure) (
        reading λ s.
          asking b (list_sent cfg.token device) (λ e. fail api_failure)
            (reading λ t. fail (invites (b.received s.requests) (b.sent t.requests))))
