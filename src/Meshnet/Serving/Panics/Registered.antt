-- ===== src/Meshnet/Serving/Panics/Registered.antt =====
-- The device is not nil in settings that are loaded after its registration.
use nordvpn_linux.Prelude.{
  Bool, true, false, List, ◌∷◌, String, Option, none, some, if◌then◌else◌, ◌≡◌, refl,
}
use nordvpn_linux.Prelude.Action.{fail, reading, ◌>>◌}
use nordvpn_linux.Config.{technology_eq}
use nordvpn_linux.Meshnet.{
  Backend, Server, Settings, Device, MachinePeer, Handler, Reply, panicked, ApiError, Request,
  answered, send, asking, requiring_login, loading, with_device,
}
use nordvpn_linux.Meshnet.Registration.{
  check_registration, requiring_registration, is_complete, is_registration_info_correct,
}
use nordvpn_linux.Meshnet.Registration.Effect.{check_registration-IsComplete}
use nordvpn_linux.Meshnet.Peers.{listing, with_peer, update_peer_permissions}
use nordvpn_linux.Meshnet.Serving.Panics.Rules.{
  is_panic, panics, Calm, Calm-succeed, Calm-fail, Calm-if, Calm-reading, then_at, Calm->>,
  asking-Calm, on_networker-Calm, saving-Calm, log_out-Calm, or_log_out-Calm, requiring_login-Calm,
  on_list_error-Calm, or_not_found-Calm,
}

module _ (b : Backend) where
  pub with_device-Calm :
      (cfg : Settings) (k : Device → Handler)
      → is_registration_info_correct b cfg ≡ true
      → ((d : Device) → Calm (k d))
      → Calm (with_device b cfg k)
  unfolding with_device is_registration_info_correct
  with_device-Calm cfg k registered h = go cfg.device registered
    where
      go :
          (o : Option Device)
          → is_complete b o cfg.private_key ≡ true
          → Calm (elim o [ none ↦ fail panicked | some d ↦ k d ])
      go none e = cc
      go (some d) e = h d

  pub loading-Calm :
      (k : Settings → Handler) (s : Server)
      → is_registration_info_correct b s.settings ≡ true
      → ((cfg : Settings) → is_registration_info_correct b cfg ≡ true → Calm (k cfg))
      → panics (loading b k s).0 ≡ false
  unfolding loading asking send reading fail
  loading-Calm k s registered h =
      go (b.answers s.requests Request.load_config)
        (record s { requests = Request.load_config ∷ s.requests }) registered
    where
      go :
          (r : Option ApiError) (t : Server)
          → is_registration_info_correct b t.settings ≡ true
          → panics
              (answered b (λ e. fail Reply.config_failure) (reading λ s. k s.settings) (r, t)).0
            ≡ false
      go none t e = (h t.settings e).at t
      go (some x) t e = refl

  pub requiring_registration-Calm :
      (reply : Reply) (k : Settings → Handler) (s : Server)
      → is_panic reply ≡ false
      → ((cfg : Settings) → is_registration_info_correct b cfg ≡ true → Calm (k cfg))
      → panics ((requiring_registration b reply >> loading b k) s).0 ≡ false
  unfolding requiring_registration ◌>>◌
  requiring_registration-Calm reply k s calm h =
      go (check_registration b s).0 (check_registration b s).1 (check_registration-IsComplete b s)
    where
      go :
          (r : Bool) (t : Server)
          → (r ≡ true → is_registration_info_correct b t.settings ≡ true)
          → panics (((λ u. ((if r then none else some reply), t)) >> loading b k) t).0 ≡ false
      go true t e = loading-Calm k t (e refl) h
      go false t e = calm

  pub registered-Calm :
      (reply : Reply) (k : Settings → Handler)
      → is_panic reply ≡ false
      → ((cfg : Settings) → is_registration_info_correct b cfg ≡ true → Calm (k cfg))
      → Calm (requiring_login b >> (requiring_registration b reply >> loading b k))
  registered-Calm reply k calm h = record {
    at = λ s.
        then_at (requiring_login b) (requiring_registration b reply >> loading b k) s
          ((requiring_login-Calm b).at s)
          (λ e. requiring_registration-Calm reply k (requiring_login b s).1 calm h);
  }

  pub listing-Calm :
      (cfg : Settings) (id : String) (k : String → List MachinePeer → MachinePeer → Handler)
      → is_registration_info_correct b cfg ≡ true
      → ((d : String) (ps : List MachinePeer) (p : MachinePeer) → Calm (k d ps p))
      → Calm (listing b cfg id k)
  unfolding listing
  listing-Calm cfg id k registered h = with_device-Calm cfg _ registered (λ d.
      asking-Calm b _ _ _ (on_list_error-Calm b)
        (Calm-reading _ (λ s. or_not_found-Calm b _ _ (h d.id (b.peers s.requests)))))

  pub with_peer-Calm :
      (id : String) (k : Settings → String → List MachinePeer → MachinePeer → Handler)
      → ((cfg : Settings) (d : String) (ps : List MachinePeer) (p : MachinePeer)
          → Calm (k cfg d ps p))
      → Calm (with_peer b id k)
  unfolding with_peer
  with_peer-Calm id k h =
      registered-Calm Reply.not_registered (λ cfg. listing b cfg id (k cfg)) refl
        (λ cfg e. listing-Calm cfg id (k cfg) e (h cfg))

  pub update_peer_permissions-Calm :
      (token device : String) (p : MachinePeer) → Calm (update_peer_permissions b token device p)
  unfolding update_peer_permissions
  update_peer_permissions-Calm token device p =
      asking-Calm b _ _ _ (λ e. Calm-fail _ refl) Calm-succeed

pub ruleset calm_rules = (
  Calm-succeed, Calm-fail, Calm-if, Calm-reading, Calm->>, asking-Calm, on_networker-Calm,
  or_log_out-Calm, or_not_found-Calm, with_peer-Calm, update_peer_permissions-Calm,
  on_list_error-Calm,
)
