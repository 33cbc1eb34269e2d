-- ===== src/Meshnet/Registration.antt =====
-- The registration of the device: `RegisteringChecker` of meshnet/register.go. The identifier of the
-- machine and the system's name are left out of the request.
pub mod Keeping
pub mod Effect
use nordvpn_linux.Prelude.{
  Bool, true, false, not, ◌&&◌, ◌∷◌, String, Option, none, some, if◌then◌else◌, string_eq, ◌==◌,
}
use nordvpn_linux.Prelude.Action.{succeed, fail}
use nordvpn_linux.Meshnet.{
  Backend, Server, Settings, Device, Reply, Handler, ApiError, conflict, config_failure,
  load_config, save_config, generate_key, release_name, register_device, send,
}

module _ (b : Backend) where
  abbrev pub is_complete : Option Device → String → Bool
  is_complete none key = false
  is_complete (some d) key =
      not (key == "") && not (d.id == "") && b.world.is_valid_address d.address

  unfoldable pub is_registration_info_correct : Settings → Bool
  is_registration_info_correct cfg = is_complete cfg.device cfg.private_key

  generate : Server → String × Server
  unfolding send
  generate s = let (_, s') = send b generate_key s in (b.new_key s.requests, s')

  key_of : Settings → Server → String × Server
  unfolding generate
  key_of cfg s = if cfg.private_key == "" then generate s else (cfg.private_key, s)

  -- reg.Register: the device, or the error
  apply_for : Settings → String → Server → Option ApiError × Server
  unfolding send
  apply_for cfg key s = send b (register_device cfg.token (b.public_key key)) s

  abbrev accepted : String → Option ApiError × Server → Option (Device × String) × Server
  accepted key (none, s) = (some (b.registered s.requests, key), s)
  accepted key (some e, s) = (none, s)

  -- on a conflict the device is registered with another key
  abbrev after_first :
      Settings → String → Option ApiError × Server → Option (Device × String) × Server
  after_first cfg key (none, s) = (some (b.registered s.requests, key), s)
  after_first cfg key (some conflict, s) =
      let (key', s') = generate s in accepted key' (apply_for cfg key' s')
  after_first cfg key (some _, s) = (none, s)

  abbrev named : Settings → String → Option ApiError × Server → Option (Device × String) × Server
  named cfg key (none, s) = after_first cfg key (apply_for cfg key s)
  named cfg key (some e, s) = (none, s)

  unfoldable pub register : Settings → Server → Option (Device × String) × Server
  unfolding key_of apply_for generate send
  register cfg s = let (key, s') = key_of cfg s in named cfg key (send b release_name s')

  abbrev stored : Device → String → Option ApiError × Server → Bool × Server
  stored d key (none, s) = (
    is_complete (some d) key,
    record s { settings = record (s.settings) { device = some d; private_key = key } },
  )
  stored d key (some e, s) = (false, s)

  -- what follows the registration: SaveWith(meshConfig(…))
  abbrev settled : Option (Device × String) × Server → Bool × Server
  settled (none, s) = (false, s)
  settled (some (d, key), s) = stored d key (send b save_config s)

  abbrev checked : Option ApiError × Server → Bool × Server
  checked (some e, s) = (false, s)
  checked (none, s) =
      if is_registration_info_correct s.settings then (true, s) else settled (register s.settings s)

  -- `IsRegistrationInfoCorrect`, which registers the device if it has to
  unfoldable pub check_registration : Server → Bool × Server
  unfolding send register is_registration_info_correct
  check_registration s = checked (send b load_config s)

  abbrev registered_again : Option ApiError × Server → Bool × Server
  registered_again (some e, s) = (false, s)
  registered_again (none, s) = settled (register s.settings s)

  -- `Register`: the absence of an error
  unfoldable pub register_device_again : Server → Bool × Server
  unfolding send register
  register_device_again s = registered_again (send b load_config s)

  unfoldable pub requiring_registration : Reply → Handler
  unfolding check_registration
  requiring_registration reply s =
      let (registered, s') = check_registration s in (if registered then none else some reply, s')
