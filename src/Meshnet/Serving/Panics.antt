-- ===== src/Meshnet/Serving/Panics.antt =====
-- The device of the settings, where the service reads it: nil only if the settings were loaded before the
-- registration of the device.
mod Rules
mod Registered
mod Invitations
use nordvpn_linux.Prelude.{Bool, true, false, List, ◌∷◌}
use nordvpn_linux.Prelude.Action.{succeed, reading, ◌>>◌}
use nordvpn_linux.Config.{technology_eq}
use nordvpn_linux.Networker
use nordvpn_linux.Networker.Tunnel
use nordvpn_linux.Meshnet.{
  Device, Invitation, Handler, ApiError, Request, Permissions, answered, networked, send, asking,
  requiring_login, loading, saving, log_out, or_log_out, with_device, if_mesh_on, on_networker,
}
use nordvpn_linux.Meshnet.Registration.{
  check_registration, requiring_registration, is_complete, is_registration_info_correct,
}
use nordvpn_linux.Meshnet.Registration.Effect.{check_registration-IsComplete}
use nordvpn_linux.Meshnet.Peers
use nordvpn_linux.Meshnet.Peers.{on_list_error, or_not_found, with_peer, update_peer_permissions}
use nordvpn_linux.Meshnet.Connection
use nordvpn_linux.Meshnet.Serving.{
  MeshRequest, of_peer, notify_new_transfer, invite, accept_invite, deny_invite, revoke_invite,
  get_invites, connect_peer,
}
use nordvpn_linux.Meshnet.Serving.Panics.Rules.{
  is_panic, Calm-succeed, Calm-reading, then_at, Calm->>, asking-Calm, on_networker-Calm,
  saving-Calm, log_out-Calm, or_log_out-Calm, requiring_login-Calm, on_list_error-Calm,
  or_not_found-Calm,
}
use nordvpn_linux.Meshnet.Serving.Panics.Registered.{
  with_device-Calm, loading-Calm, requiring_registration-Calm, with_peer-Calm,
  update_peer_permissions-Calm,
}
use nordvpn_linux.Meshnet.Serving.Panics.Invitations.{
  enabled-Calm, or_no_such-Calm, with_invitation-Calm, on_invite_error-Calm, on_accept_error-Calm,
}

-- the requests whose settings are loaded after the device was registered
abbrev pub loads_registered : MeshRequest → Bool
loads_registered (of_peer r id) = true
loads_registered (notify_new_transfer id name count transfer) = true
loads_registered (invite email allowed) = true
loads_registered (accept_invite email allowed) = true
loads_registered (deny_invite email) = true
loads_registered (revoke_invite email) = true
loads_registered get_invites = true
loads_registered (connect_peer connecting id) = true
loads_registered _ = false
