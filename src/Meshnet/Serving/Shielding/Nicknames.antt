-- ===== src/Meshnet/Serving/Shielding/Nicknames.antt =====
-- The handlers about nicknames keep the networker shielded.
use nordvpn_linux.Prelude.{String, Option, none, some, string_eq}
use nordvpn_linux.Prelude.Action.{Keeps-fail}
use nordvpn_linux.Meshnet.{Backend, Settings, MachinePeer, Handler, Reply, ApiError}
use nordvpn_linux.Meshnet.Nicknames
use nordvpn_linux.Meshnet.Serving.Shielding.Steps.{Shielded, shielded_rules}
use nordvpn_linux.Meshnet.Serving.Shielding.Methods.{safe_rules}

module _ (b : Backend) where
  pub check_domain-Shielded : (old new : String) → Shielded (Nicknames.check_domain b old new)
  unfolding Nicknames.check_domain
  check_domain-Shielded old new = search (shielded_rules) depth 10

  pub check_nickname-Shielded : (old new : String) → Shielded (Nicknames.check_nickname b old new)
  unfolding Nicknames.check_nickname
  check_nickname-Shielded old new = search (shielded_rules, check_domain-Shielded) depth 10

  pub refreshed-Shielded : (cfg : Settings) (d : String) → Shielded (Nicknames.refreshed b cfg d)
  unfolding Nicknames.refreshed
  refreshed-Shielded cfg d = search (shielded_rules, safe_rules) depth 10

  pub loaded_before-Shielded :
      (k : Settings → Handler)
      → ((cfg : Settings) → Shielded (k cfg))
      → Shielded (Nicknames.loaded_before b k)
  unfolding Nicknames.loaded_before
  loaded_before-Shielded k h = search (shielded_rules, h) depth 14 fits 6000

  pub or_unknown-Shielded :
      (o : Option MachinePeer) (k : MachinePeer → Handler)
      → ((p : MachinePeer) → Shielded (k p))
      → Shielded (Nicknames.or_unknown b o k)
  or_unknown-Shielded none k h = Keeps-fail Reply.peer_not_found
  or_unknown-Shielded (some p) k h = h p

  pub rename-Shielded :
      (cfg : Settings) (d nickname : String) (p : MachinePeer)
      → Shielded (Nicknames.rename b cfg d nickname p)
  unfolding Nicknames.rename
  rename-Shielded cfg d nickname p =
      search (shielded_rules, check_nickname-Shielded, refreshed-Shielded) depth 14 fits 6000

  pub change_peer_nickname-Shielded :
      (id nickname : String) → Shielded (Nicknames.change_peer_nickname b id nickname)
  unfolding Nicknames.change_peer_nickname
  change_peer_nickname-Shielded id nickname =
      search (shielded_rules, loaded_before-Shielded, or_unknown-Shielded, rename-Shielded) depth 14
        fits 6000

  pub on_update_error-Shielded : (e : ApiError) → Shielded (Nicknames.on_update_error b e)
  unfolding Nicknames.on_update_error
  on_update_error-Shielded e = search (shielded_rules) depth 8

  pub change_machine_nickname-Shielded :
      (nickname : String) → Shielded (Nicknames.change_machine_nickname b nickname)
  unfolding Nicknames.change_machine_nickname
  change_machine_nickname-Shielded nickname =
      search
        (
          shielded_rules, loaded_before-Shielded, check_nickname-Shielded, refreshed-Shielded,
          on_update_error-Shielded,
        )
        depth 16 fits 9000
