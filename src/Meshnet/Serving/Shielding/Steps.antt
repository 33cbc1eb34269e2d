-- ===== src/Meshnet/Serving/Shielding/Steps.antt =====
-- The steps that the handlers share keep the networker shielded.
use nordvpn_linux.Prelude.{Bool, ◌∷◌, Option, none, some, sym, subst, string_eq}
use nordvpn_linux.Prelude.Action.{fail, Keeps, Keeps-if, Keeps-fail, Keeps->>, keeps_rules}
use nordvpn_linux.Networker
use nordvpn_linux.Networker.{Combined, MachineMap, Peer, ServerData}
use nordvpn_linux.Networker.Operations.KillSwitch.{IsShielded}
use nordvpn_linux.Meshnet.{
  Backend, Server, Settings, Device, Handler, Reply, ApiError, Request, config_failure, answered,
  networked, send, asking, requiring_login, loading, saving, log_out, or_log_out, with_device,
  if_mesh_on, on_networker,
}
use nordvpn_linux.Meshnet.Registration.{check_registration, requiring_registration}
use nordvpn_linux.Meshnet.Registration.Effect.{check_registration-netw, register_device_again-netw}
use nordvpn_linux.Meshnet.Peers.{on_list_error, or_not_found}
use nordvpn_linux.Meshnet.Connection

abbrev pub Shielded : Handler → Type 0
Shielded m = Keeps (λ s. IsShielded s.netw) m

abbrev pub Safe : Networker.Method → Type 0
Safe m = Keeps IsShielded m

module _ (b : Backend) where
  pub asking-Shielded :
      (q : Request) (on_error : ApiError → Handler) (k : Handler)
      → ((e : ApiError) → Shielded (on_error e))
      → Shielded k
      → Shielded (asking b q on_error k)
  unfolding asking send
  asking-Shielded q on_error k he hk = record {
    at = λ s. go (b.answers s.requests q) (record s { requests = q ∷ s.requests });
  }
    where
      go :
          (r : Option ApiError) (s : Server)
          → IsShielded s.netw
          → IsShielded (answered b on_error k (r, s)).1.netw
      go none s h = hk.at s h
      go (some e) s h = (he e).at s h

  pub on_networker-Shielded :
      (m : Networker.Method) (reply : Reply) → Safe m → Shielded (on_networker b m reply)
  unfolding on_networker
  on_networker-Shielded m reply hm = record { at = λ s h. go (m s.netw) s (hm.at s.netw h) }
    where
      go :
          (r : Option Networker.Error × Combined) (s : Server)
          → IsShielded r.1
          → IsShielded (networked b reply r s).1.netw
      go (none, n) s h = h
      go (some e, n) s h = h

  pub requiring_registration-Shielded : (reply : Reply) → Shielded (requiring_registration b reply)
  unfolding requiring_registration
  requiring_registration-Shielded reply = record {
    at = λ s h. subst IsShielded (sym (check_registration-netw b s)) h;
  }

  pub registering-Shielded : Shielded (Connection.registering b)
  unfolding Connection.registering
  registering-Shielded = record {
    at = λ s h. subst IsShielded (sym (register_device_again-netw b s)) h;
  }

  -- a handler that goes on by the registration
  pub registered-Shielded :
      (k : Bool → Handler)
      → ((r : Bool) → Shielded (k r))
      → Shielded (λ s. let (r, s') = check_registration b s in k r s')
  registered-Shielded k h = record {
    at = λ s p.
        (h (check_registration b s).0).at (check_registration b s).1
          (subst IsShielded (sym (check_registration-netw b s)) p);
  }

  pub saving-Shielded : (f : Settings → Settings) → Shielded (saving b f)
  unfolding saving
  saving-Shielded f =
      asking-Shielded _ _ _ (λ e. Keeps-fail config_failure) (record { at = λ s h. h })

  pub log_out-Shielded : Shielded (log_out b)
  unfolding log_out
  log_out-Shielded = search (keeps_rules, saving-Shielded) depth 8

  pub or_log_out-Shielded : (reply : Reply) (e : ApiError) → Shielded (or_log_out b reply e)
  unfolding or_log_out
  or_log_out-Shielded reply e = search (keeps_rules, log_out-Shielded) depth 8

  pub loading-Shielded :
      (k : Settings → Handler) → ((cfg : Settings) → Shielded (k cfg)) → Shielded (loading b k)
  unfolding loading
  loading-Shielded k h = search (keeps_rules, asking-Shielded, h) depth 8

  pub requiring_login-Shielded : Shielded (requiring_login b)
  unfolding requiring_login
  requiring_login-Shielded = search (keeps_rules, asking-Shielded) depth 8

  pub if_mesh_on-Shielded :
      (on off : Handler) → Shielded on → Shielded off → Shielded (if_mesh_on b on off)
  unfolding if_mesh_on
  if_mesh_on-Shielded on off hn hf = search (keeps_rules, asking-Shielded) depth 8

  pub with_device-Shielded :
      (cfg : Settings) (k : Device → Handler)
      → ((d : Device) → Shielded (k d))
      → Shielded (with_device b cfg k)
  unfolding with_device
  with_device-Shielded cfg k h = go cfg.device
    where
      go : (o : Option Device) → Shielded (elim o [ none ↦ fail Reply.panicked | some d ↦ k d ])
      go none = Keeps-fail Reply.panicked
      go (some d) = h d

  pub on_list_error-Shielded : (e : ApiError) → Shielded (on_list_error b e)
  unfolding on_list_error
  on_list_error-Shielded e = search (keeps_rules, log_out-Shielded, if_mesh_on-Shielded) depth 8

  pub or_not_found-Shielded :
      {A : Type 0} (o : Option A) (k : A → Handler)
      → ((a : A) → Shielded (k a))
      → Shielded (or_not_found b o k)
  or_not_found-Shielded none k h = Keeps-fail Reply.peer_not_found
  or_not_found-Shielded (some p) k h = h p

pub ruleset shielded_rules = (
  keeps_rules, asking-Shielded, requiring_registration-Shielded, saving-Shielded, log_out-Shielded,
  or_log_out-Shielded, loading-Shielded, requiring_login-Shielded, if_mesh_on-Shielded,
  with_device-Shielded, on_list_error-Shielded, or_not_found-Shielded, on_networker-Shielded,
)
