-- ===== src/Config/Manager.antt =====
-- Persistence of the settings: config/manager.go. Encryption, the passphrase and the JSON codec stand
-- behind `File`, which says what a load finds, and `Io`, which says what the file system does.
pub mod Publishing
use nordvpn_linux.Prelude.{Bool, true, false, not, Option, none, some, if◌then◌else◌}
use nordvpn_linux.Config.{Config, new_config}

pub data File : Type 0 where
  absent : File
  -- cannot be decrypted, or is not JSON
  corrupt : File
  -- a value of another type stands in it: the fields before it are read
  mistyped : Config → File
  valid : Config → File

-- What the file system does during one call: reading the file or the vault may fail, and so may
-- writing one of them.
pub record Io : Type 0 where
  pub read_fails : Bool
  pub write_fails : Bool

-- The configuration, the absence of an error, and the file that is left. The configuration starts
-- as the default settings, and an error leaves in it what was read by then.
unfoldable pub load : Io → File → Config × Bool × File
load io absent =
    (new_config, not io.write_fails, if io.write_fails then absent else valid new_config)
load io corrupt = (new_config, false, corrupt)
load io (mistyped c) = (if io.read_fails then new_config else c, false, mistyped c)
load io (valid c) = (if io.read_fails then new_config else c, not io.read_fails, valid c)

-- The absence of an error, and the file.
unfoldable pub save : Io → Config → File → Bool × File
save io c file = (not io.write_fails, if io.write_fails then file else valid c)

-- What `SaveWith` returns and leaves, and the configuration that its deferred function publishes.
-- The error of `f.load` is bound by an inner `err`, so the deferred function does not see it.
pub record Saved : Type 0 where
  pub succeeded : Bool
  pub file : File
  pub published : Option Config

after_load : Io → (Config → Config) → Config × Bool × File → Saved
unfolding save
after_load io fn (c, false, file) = record { succeeded = false; file = file; published = some c }
after_load io fn (c, true, file) =
    let (written, left) = save io (fn c) file in
    record { succeeded = written; file = left; published = if written then some (fn c) else none }

unfoldable pub save_with : Io → (Config → Config) → File → Saved
unfolding load after_load
save_with io fn file = after_load io fn (load io file)

unfoldable pub reset : Io → File → Bool × File
unfolding save
reset io file = save io new_config file
