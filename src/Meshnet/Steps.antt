-- ===== src/Meshnet/Steps.antt =====
-- What a request to another part leads to where it succeeds.
use nordvpn_linux.Prelude.{◌∷◌, Option, none, some, ◌≡◌, refl, ap}
use nordvpn_linux.Prelude.Action.{◌>>◌}
use nordvpn_linux.Networker
use nordvpn_linux.Networker.{Combined}
use nordvpn_linux.Meshnet.{
  Backend, Server, Settings, Device, Handler, Reply, ApiError, Request, answered, networked, asking,
  send, with_device, on_networker,
}

pub >>-succeeded : (m k : Handler) (s t : Server) → m s ≡ (none, t) → (m >> k) s ≡ k t
unfolding ◌>>◌
>>-succeeded m k s t e = ap (λ r. ((λ u. r) >> k) s) e

module _ (b : Backend) where
  pub asking-answered :
      (q : Request) (on_error : ApiError → Handler) (k : Handler) (s : Server)
      → b.answers s.requests q ≡ none
      → asking b q on_error k s ≡ k (record s { requests = q ∷ s.requests })
  unfolding asking send
  asking-answered q on_error k s e =
      ap (λ r. answered b on_error k (r, record s { requests = q ∷ s.requests })) e

  pub with_device-some :
      (cfg : Settings) (k : Device → Handler) (d : Device)
      → cfg.device ≡ some d
      → with_device b cfg k ≡ k d
  unfolding with_device
  with_device-some cfg k d e = rw e refl

  pub on_networker-netw :
      (m : Networker.Method) (reply : Reply) (s : Server)
      → (on_networker b m reply s).1.netw ≡ (m s.netw).1
  unfolding on_networker
  on_networker-netw m reply s = go (m s.netw) s
    where
      go :
          (r : Option Networker.Error × Combined) (s : Server)
          → (networked b reply r s).1.netw ≡ r.1
      go (none, n) s = refl
      go (some e, n) s = refl
