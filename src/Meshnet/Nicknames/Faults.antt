-- ===== src/Meshnet/Nicknames/Faults.antt =====
-- Where the handlers of nicknames do not do what they mean to.
use nordvpn_linux.Prelude.{
  true, false, not, [], ◌∷◌, String, none, some, find, if◌then◌else◌, string_eq, ◌==◌, ◌≡◌, ◌∙◌, ap,
  refl, arith,
}
use nordvpn_linux.Prelude.Action.{fail, succeed, reading, ◌>>◌}
use nordvpn_linux.Meshnet.{
  Backend, Server, Settings, MachinePeer, not_enabled, config_failure, Handler, Reply, panicked,
  check_login, load_config, requiring_login, loading, with_device,
}
use nordvpn_linux.Meshnet.Steps.{>>-succeeded, asking-answered}
use nordvpn_linux.Meshnet.Registration.{check_registration, requiring_registration}
use nordvpn_linux.Meshnet.Nicknames.{loaded_before, change_peer_nickname, get_peer_with_identifier}

-- the server behind the login and the load
abbrev pub loaded : Server → Server
loaded s = record s { requests = load_config ∷ check_login ∷ s.requests }

module _ (b : Backend) where
  requiring_registration-registered :
      (reply : Reply) (s : Server)
      → (check_registration b s).0 ≡ true
      → requiring_registration b reply s ≡ (none, (check_registration b s).1)
  unfolding requiring_registration
  requiring_registration-registered reply s e =
      ap (λ r. ((if r then none else some reply), (check_registration b s).1)) e

loaded_before-registered :
    (b : Backend) (k : Settings → Handler) (s : Server)
    → b.answers s.requests check_login ≡ none
    → b.answers (check_login ∷ s.requests) load_config ≡ none
    → s.settings.mesh ≡ true
    → (check_registration b (loaded s)).0 ≡ true
    → loaded_before b k s ≡ k s.settings (check_registration b (loaded s)).1
unfolding loaded_before requiring_login loading reading succeed
loaded_before-registered b k s login load on registered =
    >>-succeeded (requiring_login b) _ s (record s { requests = check_login ∷ s.requests })
      (asking-answered b check_login _ _ s login)
    ∙ asking-answered b load_config _ _ (record s { requests = check_login ∷ s.requests }) load
    ∙ ap
        (λ c.
          (if not c
              then fail not_enabled
              else (requiring_registration b config_failure >> k s.settings))
            (loaded s))
        on
    ∙ >>-succeeded (requiring_registration b config_failure) (k s.settings) (loaded s) _
        (requiring_registration-registered b _ (loaded s) registered)

-- Where the device is registered in the course of a change of a peer's nickname, the settings loaded
-- before still have none: the handler reads the device of the settings while it is nil.
pub change_peer_nickname-panicked :
    (b : Backend) (identifier nickname : String) (s : Server)
    → b.answers s.requests check_login ≡ none
    → b.answers (check_login ∷ s.requests) load_config ≡ none
    → s.settings.mesh ≡ true
    → s.settings.device ≡ none
    → (check_registration b (loaded s)).0 ≡ true
    → (change_peer_nickname b identifier nickname s).0 ≡ some panicked
unfolding change_peer_nickname with_device fail
change_peer_nickname-panicked b identifier nickname s login load on missing registered =
    ap (λ r. r.0) (loaded_before-registered b _ s login load on registered) ∙ rw missing refl

-- A peer is not found by its public key where that has an upper-case letter, unless it is found by
-- something else.
get_peer_with_identifier-public_key :
    (b : Backend) (p : MachinePeer)
    → (b.to_lower p.public_key == p.public_key) ≡ false
    → (p.id == b.to_lower p.public_key) ≡ false
    → b.equal_fold p.hostname (b.to_lower p.public_key) ≡ false
    → b.equal_fold p.nickname (b.to_lower p.public_key) ≡ false
    → get_peer_with_identifier b p.public_key (p ∷ []) ≡ none
unfolding get_peer_with_identifier find
get_peer_with_identifier-public_key b p upper id hostname nickname = ground (
  arith,
  string_eq.beq_iff (b.to_lower p.public_key) p.public_key,
  string_eq.beq_iff p.public_key (b.to_lower p.public_key),
)
