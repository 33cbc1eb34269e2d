-- ===== src/Meshnet/Nicknames.antt =====
-- Nicknames of peers and of this device: meshnet/server.go.
pub mod Faults
use nordvpn_linux.Prelude.{
  ℕ, ◌+◌, ltb, Text, codes, Bool, true, false, not, ◌||◌, List, [], ◌∷◌, String, Option, none, some,
  find, if◌then◌else◌, string_eq, ◌==◌,
}
use nordvpn_linux.Prelude.Action.{succeed, fail, reading, ◌>>◌}
use nordvpn_linux.Networker.Mesh
use nordvpn_linux.Meshnet.{
  Backend, Server, Settings, Device, MachinePeer, Reply, Handler, ApiError, unauthorized,
  rate_limit_reach, too_long, duplicate, forbidden_word, invalid_prefix_or_suffix, double_hyphens,
  forbidden_chars, asking, requiring_login, loading, saving, log_out, or_log_out, with_device,
  on_networker, is_unauthorized, new_peer_update_request, list_peers, map_peers, configure,
  update_device, lookup_ip, not_enabled, config_failure, api_failure, peer_not_found,
  nickname_already_empty, same_nickname, domain_name_exists, rate_limited, nickname_too_long,
  duplicate_nickname, contains_forbidden_word, suffix_or_prefix_are_invalid,
  nickname_has_double_hyphens, invalid_chars,
}
use nordvpn_linux.Meshnet.Registration.{requiring_registration}

-- the UTF-8 bytes of a code point, and of a text: `len`
abbrev pub width : ℕ → ℕ
width c = if ltb c 0x80 then 1 else if ltb c 0x800 then 2 else if ltb c 0x10000 then 3 else 4

unfoldable pub byte_length : Text → ℕ
byte_length [] = 0
byte_length (c ∷ s) = width c + byte_length s

abbrev is_empty_list : List String → Bool
is_empty_list [] = true
is_empty_list (x ∷ xs) = false

module _ (b : Backend) where
  unfoldable pub api_to_nickname_error : ApiError → Reply
  api_to_nickname_error rate_limit_reach = rate_limited
  api_to_nickname_error too_long = nickname_too_long
  api_to_nickname_error duplicate = duplicate_nickname
  api_to_nickname_error forbidden_word = contains_forbidden_word
  api_to_nickname_error invalid_prefix_or_suffix = suffix_or_prefix_are_invalid
  api_to_nickname_error double_hyphens = nickname_has_double_hyphens
  api_to_nickname_error forbidden_chars = invalid_chars
  api_to_nickname_error _ = api_failure

  -- `getPeerWithIdentifier`
  unfoldable pub get_peer_with_identifier : String → List MachinePeer → Option MachinePeer
  get_peer_with_identifier identifier peers =
      let id = b.to_lower identifier in
      if identifier == ""
      then none
      else find
          (λ p.
            p.id == id
            || b.equal_fold p.hostname id
            || p.public_key == id
            || b.equal_fold p.nickname id)
          peers

  -- the name is not resolved already, unless it differs from the old one by case only
  unfoldable pub check_domain : String → String → Handler
  unfolding asking
  check_domain old new =
      if b.equal_fold old new
      then succeed
      else asking b (lookup_ip new) (λ e. succeed)
          (reading λ s.
            if is_empty_list (b.addresses s.requests) then succeed else fail domain_name_exists)

  unfoldable pub check_nickname : String → String → Handler
  unfolding check_domain
  check_nickname old new =
      if new == ""
      then (if old == "" then fail nickname_already_empty else succeed)
      else if old == new
      then fail same_nickname
      else check_domain old new

  -- the map of the mesh after the change; the networker's error is a failure of the configuration
  unfoldable pub refreshed : Settings → String → Handler
  unfolding asking on_networker
  refreshed cfg device =
      asking b (map_peers cfg.token device) (λ e. fail api_failure)
        (reading
          λ s. on_networker b (Mesh.refresh b.world (b.machine_map s.requests)) config_failure)

  -- The settings are loaded before the device is registered, where it has to be.
  unfoldable pub loaded_before : (Settings → Handler) → Handler
  unfolding requiring_login requiring_registration loading
  loaded_before k = do
    requiring_login b
    loading b λ cfg.
        if not cfg.mesh then fail not_enabled else do requiring_registration b config_failure; k cfg

  abbrev pub or_unknown : Option MachinePeer → (MachinePeer → Handler) → Handler
  or_unknown none k = fail peer_not_found
  or_unknown (some peer) k = k peer

  -- what follows the search for the peer
  unfoldable pub rename : Settings → String → String → MachinePeer → Handler
  unfolding check_nickname asking refreshed
  rename cfg device nickname peer = do
    check_nickname peer.nickname nickname
    asking b
        (configure cfg.token device peer.id
          (new_peer_update_request (record peer { nickname = nickname })))
        (λ e. fail (api_to_nickname_error e)) succeed
    refreshed cfg device

  unfoldable pub change_peer_nickname : String → String → Handler
  unfolding loaded_before with_device asking or_log_out get_peer_with_identifier rename
  change_peer_nickname identifier nickname = loaded_before λ cfg. with_device b cfg λ device.
      asking b (list_peers cfg.token device.id) (or_log_out b api_failure) (
        reading λ s.
          or_unknown (get_peer_with_identifier identifier (b.peers s.requests))
            (rename cfg device.id nickname))

  abbrev renamed : String → Settings → Settings
  renamed nickname c = record c {
    device = elim c.device [ none ↦ none | some d ↦ some (record d { nickname = nickname }) ];
  }

  unfoldable pub on_update_error : ApiError → Handler
  unfolding log_out
  on_update_error e = if is_unauthorized e then log_out b else fail (api_to_nickname_error e)

  unfoldable pub change_machine_nickname : String → Handler
  unfolding loaded_before byte_length with_device check_nickname asking saving refreshed
      on_update_error
  change_machine_nickname nickname = loaded_before λ cfg.
      if ltb 25 (byte_length (codes nickname))
      then fail nickname_too_long
      else with_device b cfg λ device. do
        check_nickname device.nickname nickname
        asking b (update_device cfg.token device.id nickname) on_update_error succeed
        saving b (renamed nickname)
        refreshed cfg device.id
