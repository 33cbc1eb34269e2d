-- ===== src/Meshnet/Serving/Panics/Invitations.antt =====
-- The handlers about invitations never read the device while it is nil.
use nordvpn_linux.Prelude.{not, List, String, Option, none, some, if◌then◌else◌, refl}
use nordvpn_linux.Prelude.Action.{fail}
use nordvpn_linux.Config.{technology_eq}
use nordvpn_linux.Meshnet.{
  Backend, Server, Settings, Invitation, Handler, Reply, ApiError, Request, Permissions,
  with_device,
}
use nordvpn_linux.Meshnet.Invitations
use nordvpn_linux.Meshnet.Serving.Panics.Rules.{Calm, Calm-fail, Calm-if, log_out-Calm}
use nordvpn_linux.Meshnet.Serving.Panics.Registered.{with_device-Calm, registered-Calm, calm_rules}

module _ (b : Backend) where
  pub enabled-Calm :
      (k : Settings → String → Handler)
      → ((cfg : Settings) (d : String) → Calm (k cfg d))
      → Calm (Invitations.enabled b k)
  unfolding Invitations.enabled
  enabled-Calm k h =
      registered-Calm b Reply.not_registered
        (λ cfg.
          if not cfg.mesh
          then fail Reply.not_enabled
          else with_device b cfg (λ device. k cfg device.id))
        refl
        (λ cfg e. Calm-if _ _ _ (Calm-fail _ refl) (with_device-Calm b cfg _ e (λ d. h cfg d.id)))

  pub or_no_such-Calm :
      (o : Option Invitation) (k : Invitation → Handler)
      → ((i : Invitation) → Calm (k i))
      → Calm (Invitations.or_no_such b o k)
  or_no_such-Calm none k h = Calm-fail _ refl
  or_no_such-Calm (some i) k h = h i

  pub with_invitation-Calm :
      (r : Settings → String → Request) (l : Server → List Invitation) (e : String)
      (k : Settings → String → Invitation → Handler)
      → ((cfg : Settings) (d : String) (i : Invitation) → Calm (k cfg d i))
      → Calm (Invitations.with_invitation b r l e k)
  unfolding Invitations.with_invitation
  with_invitation-Calm r l e k h =
      search (calm_rules, enabled-Calm, or_no_such-Calm, h, refl) depth 12

  pub on_invite_error-Calm : (e : ApiError) → Calm (Invitations.on_invite_error b e)
  unfolding Invitations.on_invite_error
  on_invite_error-Calm ApiError.unauthorized = log_out-Calm b
  on_invite_error-Calm e = Calm-fail _ refl

  pub on_accept_error-Calm : (e : ApiError) → Calm (Invitations.on_accept_error b e)
  unfolding Invitations.on_accept_error
  on_accept_error-Calm ApiError.maximum_device_count = Calm-fail _ refl
  on_accept_error-Calm e = Calm-fail _ refl

  pub invite-Calm : (e : String) (a : Permissions) → Calm (Invitations.invite b e a)
  unfolding Invitations.invite
  invite-Calm e a = search (calm_rules, enabled-Calm, on_invite_error-Calm) depth 10

  pub accept_invite-Calm : (e : String) (a : Permissions) → Calm (Invitations.accept_invite b e a)
  unfolding Invitations.accept_invite
  accept_invite-Calm e a =
      search (calm_rules, with_invitation-Calm, on_accept_error-Calm, refl) depth 12

  pub deny_invite-Calm : (e : String) → Calm (Invitations.deny_invite b e)
  unfolding Invitations.deny_invite
  deny_invite-Calm e = search (calm_rules, with_invitation-Calm, refl) depth 12

  pub revoke_invite-Calm : (e : String) → Calm (Invitations.revoke_invite b e)
  unfolding Invitations.revoke_invite
  revoke_invite-Calm e = search (calm_rules, with_invitation-Calm, refl) depth 12

  pub get_invites-Calm : Calm (Invitations.get_invites b)
  unfolding Invitations.get_invites
  get_invites-Calm = search (calm_rules, enabled-Calm, refl) depth 12
