-- ===== src/Meshnet/Serving/Shielding/Invitations.antt =====
-- The handlers about invitations keep the networker shielded.
use nordvpn_linux.Prelude.{List, String, Option, none, some, string_eq}
use nordvpn_linux.Prelude.Action.{Keeps-fail}
use nordvpn_linux.Meshnet.{
  Backend, Server, Settings, Invitation, Handler, Reply, ApiError, Request, Permissions,
}
use nordvpn_linux.Meshnet.Invitations
use nordvpn_linux.Meshnet.Serving.Shielding.Steps.{Shielded, shielded_rules, log_out-Shielded}
use nordvpn_linux.Meshnet.Serving.Shielding.Methods.{safe_rules}

module _ (b : Backend) where
  pub enabled-Shielded :
      (k : Settings → String → Handler)
      → ((cfg : Settings) (d : String) → Shielded (k cfg d))
      → Shielded (Invitations.enabled b k)
  unfolding Invitations.enabled
  enabled-Shielded k h = search (shielded_rules, h) depth 14 fits 6000

  pub or_no_such-Shielded :
      (o : Option Invitation) (k : Invitation → Handler)
      → ((i : Invitation) → Shielded (k i))
      → Shielded (Invitations.or_no_such b o k)
  or_no_such-Shielded none k h = Keeps-fail Reply.no_such_invitation
  or_no_such-Shielded (some p) k h = h p

  pub with_invitation-Shielded :
      (r : Settings → String → Request) (l : Server → List Invitation) (e : String)
      (k : Settings → String → Invitation → Handler)
      → ((cfg : Settings) (d : String) (i : Invitation) → Shielded (k cfg d i))
      → Shielded (Invitations.with_invitation b r l e k)
  unfolding Invitations.with_invitation
  with_invitation-Shielded r l e k h =
      search (shielded_rules, enabled-Shielded, or_no_such-Shielded, h) depth 14 fits 6000

  pub on_invite_error-Shielded : (e : ApiError) → Shielded (Invitations.on_invite_error b e)
  unfolding Invitations.on_invite_error
  on_invite_error-Shielded ApiError.unauthorized = log_out-Shielded b
  on_invite_error-Shielded e = Keeps-fail _

  pub on_accept_error-Shielded : (e : ApiError) → Shielded (Invitations.on_accept_error b e)
  unfolding Invitations.on_accept_error
  on_accept_error-Shielded ApiError.maximum_device_count = Keeps-fail _
  on_accept_error-Shielded e = Keeps-fail _

  ruleset invite_rules = (
    shielded_rules, safe_rules, enabled-Shielded, with_invitation-Shielded,
    on_invite_error-Shielded, on_accept_error-Shielded,
  )

  pub invite-Shielded : (e : String) (a : Permissions) → Shielded (Invitations.invite b e a)
  unfolding Invitations.invite
  invite-Shielded e a = search (invite_rules) depth 14 fits 6000

  pub accept_invite-Shielded :
      (e : String) (a : Permissions) → Shielded (Invitations.accept_invite b e a)
  unfolding Invitations.accept_invite
  accept_invite-Shielded e a = search (invite_rules) depth 14 fits 6000

  pub deny_invite-Shielded : (e : String) → Shielded (Invitations.deny_invite b e)
  unfolding Invitations.deny_invite
  deny_invite-Shielded e = search (invite_rules) depth 14 fits 6000

  pub revoke_invite-Shielded : (e : String) → Shielded (Invitations.revoke_invite b e)
  unfolding Invitations.revoke_invite
  revoke_invite-Shielded e = search (invite_rules) depth 14 fits 6000

  pub get_invites-Shielded : Shielded (Invitations.get_invites b)
  unfolding Invitations.get_invites
  get_invites-Shielded = search (invite_rules) depth 14 fits 6000
