-- ===== src/Meshnet/Serving/Telling/Steps.antt =====
-- The steps before the change of a peer tell the API of none.
use nordvpn_linux.Prelude.{
  false, List, ◌∷◌, String, Option, none, some, find, string_eq, ◌==◌, ◌≡◌, refl,
}
use nordvpn_linux.Prelude.Action.{Keeps, Keeps-fail, Keeps-reading, Keeps->>, keeps_rules, fail}
use nordvpn_linux.Networker
use nordvpn_linux.Networker.{Combined}
use nordvpn_linux.Meshnet.{
  Backend, Server, Settings, Device, MachinePeer, Handler, Reply, ApiError, Request, configure,
  answered, networked, send, asking, requiring_login, loading, saving, log_out, with_device,
  if_mesh_on, on_networker,
}
use nordvpn_linux.Meshnet.Registration.{requiring_registration}
use nordvpn_linux.Meshnet.Registration.Keeping.{is_configure, check_registration-Keeps}
use nordvpn_linux.Meshnet.Peers.{on_list_error, or_not_found, listing, with_peer}
use nordvpn_linux.Meshnet.Serving.{PeerRequest}
use nordvpn_linux.Meshnet.Serving.Telling.Changes.{Fits, Told, tell}

module _ (b : Backend) (r : PeerRequest) (id : String) (before : List Request) where
  abbrev pub Tells : Handler → Type 0
  Tells m = Keeps (λ s. Told b r id before s.requests) m

  pub Fits-other : (q : Request) (qs : List Request) → is_configure q ≡ false → Fits b r id qs q
  Fits-other (configure token device peer update) qs h = cc
  Fits-other q qs h = tt

  pub asking-Tells :
      (q : Request) (on_error : ApiError → Handler) (k : Handler)
      → is_configure q ≡ false
      → ((e : ApiError) → Tells (on_error e))
      → Tells k
      → Tells (asking b q on_error k)
  unfolding asking send
  asking-Tells q on_error k other he hk = record {
    at = λ s h.
        go (b.answers s.requests q) (record s { requests = q ∷ s.requests })
          (tell q s.requests (Fits-other q s.requests other) h);
  }
    where
      go :
          (a : Option ApiError) (s : Server)
          → Told b r id before s.requests
          → Told b r id before (answered b on_error k (a, s)).1.requests
      go none s h = hk.at s h
      go (some e) s h = (he e).at s h

  pub on_networker-Tells : (m : Networker.Method) (reply : Reply) → Tells (on_networker b m reply)
  unfolding on_networker
  on_networker-Tells m reply = record { at = λ s h. go (m s.netw) s h }
    where
      go :
          (a : Option Networker.Error × Combined) (s : Server)
          → Told b r id before s.requests
          → Told b r id before (networked b reply a s).1.requests
      go (none, n) s h = h
      go (some e, n) s h = h

  pub requiring_registration-Tells : (reply : Reply) → Tells (requiring_registration b reply)
  unfolding requiring_registration
  requiring_registration-Tells reply = record {
    at =
        check_registration-Keeps b (λ s. Told b r id before s.requests)
          (λ q s other h. tell q s.requests (Fits-other q s.requests other) h) (λ d key s h. h);
  }

  pub requiring_login-Tells : Tells (requiring_login b)
  unfolding requiring_login
  requiring_login-Tells = search (keeps_rules, asking-Tells, refl) depth 8

  pub loading-Tells :
      (k : Settings → Handler) → ((cfg : Settings) → Tells (k cfg)) → Tells (loading b k)
  unfolding loading
  loading-Tells k h = search (keeps_rules, asking-Tells, h, refl) depth 8

  pub log_out-Tells : Tells (log_out b)
  unfolding log_out saving
  log_out-Tells =
      Keeps->> _ _ (asking-Tells _ _ _ refl (λ e. Keeps-fail _) (record { at = λ s h. h }))
        (Keeps-fail _)

  pub on_list_error-Tells : (e : ApiError) → Tells (on_list_error b e)
  unfolding on_list_error if_mesh_on
  on_list_error-Tells e = search (keeps_rules, asking-Tells, log_out-Tells, refl) depth 10

  pub with_device-Tells :
      (cfg : Settings) (k : Device → Handler)
      → ((d : Device) → Tells (k d))
      → Tells (with_device b cfg k)
  unfolding with_device
  with_device-Tells cfg k h = go cfg.device
    where
      go : (o : Option Device) → Tells (elim o [ none ↦ fail Reply.panicked | some d ↦ k d ])
      go none = Keeps-fail Reply.panicked
      go (some d) = h d

  -- what follows for the listed peer
  abbrev pub TellsOf : (String → List MachinePeer → MachinePeer → Handler) → Type 0
  TellsOf k =
      (d : String) (p : MachinePeer) (s : Server)
      → find (λ q. q.id == id) (b.peers s.requests) ≡ some p
      → Told b r id before s.requests
      → Told b r id before (k d (b.peers s.requests) p s).1.requests

  pub or_not_found-Tells :
      (k : String → List MachinePeer → MachinePeer → Handler) (d : String) (o : Option MachinePeer)
      (s : Server)
      → TellsOf k
      → find (λ q. q.id == id) (b.peers s.requests) ≡ o
      → Told b r id before s.requests
      → Told b r id before (or_not_found b o (k d (b.peers s.requests)) s).1.requests
  unfolding fail
  or_not_found-Tells k d none s hk e h = h
  or_not_found-Tells k d (some p) s hk e h = hk d p s e h

  pub listing-Tells :
      (cfg : Settings) (k : String → List MachinePeer → MachinePeer → Handler)
      → TellsOf k
      → Tells (listing b cfg id k)
  unfolding listing
  listing-Tells cfg k hk = with_device-Tells cfg _ (λ d.
      asking-Tells _ _ _ refl on_list_error-Tells
        (Keeps-reading _ (λ s h. or_not_found-Tells k d.id _ s hk refl h)))

  pub with_peer-Tells :
      (k : Settings → String → List MachinePeer → MachinePeer → Handler)
      → ((cfg : Settings) → TellsOf (k cfg))
      → Tells (with_peer b id k)
  unfolding with_peer
  with_peer-Tells k hk =
      search
        (
          keeps_rules, requiring_login-Tells, requiring_registration-Tells, loading-Tells,
          listing-Tells, hk,
        )
        depth 10
