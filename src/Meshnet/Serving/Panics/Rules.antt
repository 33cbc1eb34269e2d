-- ===== src/Meshnet/Serving/Panics/Rules.antt =====
-- Handlers that never read the device while it is nil.
use nordvpn_linux.Prelude.{Bool, true, false, ◌∷◌, Option, none, some, if◌then◌else◌, ◌≡◌, refl}
use nordvpn_linux.Prelude.Action.{succeed, fail, reading, ◌>>◌}
use nordvpn_linux.Config.{technology_eq}
use nordvpn_linux.Networker
use nordvpn_linux.Networker.{Combined}
use nordvpn_linux.Meshnet.{
  Backend, Server, Settings, Handler, Reply, panicked, ApiError, Request, answered, networked, send,
  asking, requiring_login, saving, log_out, or_log_out, if_mesh_on, on_networker,
}
use nordvpn_linux.Meshnet.Peers.{on_list_error, or_not_found}

abbrev pub is_panic : Reply → Bool
is_panic panicked = true
is_panic _ = false

abbrev pub panics : Option Reply → Bool
panics none = false
panics (some r) = is_panic r

pub record Calm (m : Handler) : Type 0 where
  pub at : (s : Server) → panics (m s).0 ≡ false

pub Calm-succeed : Calm succeed
unfolding succeed
Calm-succeed = record { at = λ s. refl }

pub Calm-fail : (r : Reply) → is_panic r ≡ false → Calm (fail r)
unfolding fail
Calm-fail r e = record { at = λ s. e }

pub Calm-if : (c : Bool) (m k : Handler) → Calm m → Calm k → Calm (if c then m else k)
Calm-if true m k hm hk = hm
Calm-if false m k hm hk = hk

pub Calm-reading : (f : Server → Handler) → ((s : Server) → Calm (f s)) → Calm (reading f)
unfolding reading
Calm-reading f h = record { at = λ s. (h s).at s }

-- the second method runs only after a success of the first
pub then_at :
    (m k : Handler) (s : Server)
    → panics (m s).0 ≡ false
    → ((m s).0 ≡ none → panics (k (m s).1).0 ≡ false)
    → panics ((m >> k) s).0 ≡ false
unfolding ◌>>◌
then_at m k s = go (m s).0 (m s).1
  where
    go :
        (r : Option Reply) (t : Server)
        → panics r ≡ false
        → (r ≡ none → panics (k t).0 ≡ false)
        → panics (((λ u. (r, t)) >> k) t).0 ≡ false
    go none t h hk = hk refl
    go (some x) t h hk = h

pub Calm->> : (m k : Handler) → Calm m → Calm k → Calm (m >> k)
Calm->> m k hm hk = record { at = λ s. then_at m k s (hm.at s) (λ e. hk.at (m s).1) }

module _ (b : Backend) where
  pub asking-Calm :
      (q : Request) (on_error : ApiError → Handler) (k : Handler)
      → ((e : ApiError) → Calm (on_error e))
      → Calm k
      → Calm (asking b q on_error k)
  unfolding asking send
  asking-Calm q on_error k he hk = record {
    at = λ s. go (b.answers s.requests q) (record s { requests = q ∷ s.requests });
  }
    where
      go : (r : Option ApiError) (s : Server) → panics (answered b on_error k (r, s)).0 ≡ false
      go none s = hk.at s
      go (some e) s = (he e).at s

  pub on_networker-Calm :
      (m : Networker.Method) (reply : Reply)
      → is_panic reply ≡ false
      → Calm (on_networker b m reply)
  unfolding on_networker
  on_networker-Calm m reply calm = record { at = λ s. go (m s.netw) s }
    where
      go :
          (r : Option Networker.Error × Combined) (s : Server)
          → panics (networked b reply r s).0 ≡ false
      go (none, n) s = refl
      go (some e, n) s = calm

  pub saving-Calm : (f : Settings → Settings) → Calm (saving b f)
  unfolding saving
  saving-Calm f = asking-Calm _ _ _ (λ e. Calm-fail _ refl) (record { at = λ s. refl })

  pub log_out-Calm : Calm (log_out b)
  unfolding log_out
  log_out-Calm = Calm->> _ _ (saving-Calm _) (Calm-fail _ refl)

  pub or_log_out-Calm :
      (reply : Reply) → is_panic reply ≡ false → (e : ApiError) → Calm (or_log_out b reply e)
  unfolding or_log_out
  or_log_out-Calm reply calm e = Calm-if _ _ _ log_out-Calm (Calm-fail reply calm)

  pub requiring_login-Calm : Calm (requiring_login b)
  unfolding requiring_login
  requiring_login-Calm = asking-Calm _ _ _ (λ e. Calm-fail _ refl) Calm-succeed

  pub on_list_error-Calm : (e : ApiError) → Calm (on_list_error b e)
  unfolding on_list_error if_mesh_on
  on_list_error-Calm e = Calm-if _ _ _ log_out-Calm (
      asking-Calm _ _ _ (λ e. Calm-fail _ refl)
        (Calm-reading _ (λ s. Calm-if _ _ _ (Calm-fail _ refl) (Calm-fail _ refl))))

  pub or_not_found-Calm :
      {A : Type 0} (o : Option A) (k : A → Handler)
      → ((a : A) → Calm (k a))
      → Calm (or_not_found b o k)
  or_not_found-Calm none k h = Calm-fail _ refl
  or_not_found-Calm (some a) k h = h a
