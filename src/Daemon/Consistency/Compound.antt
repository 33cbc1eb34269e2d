-- ===== src/Daemon/Consistency/Compound.antt =====
-- The requests of several parts keep the saved configuration consistent.
use nordvpn_linux.Prelude.{
  Bool, true, false, not, ◌&&◌, bool_eq, nat_eq, if◌then◌else◌, Option, none, some, List, Text, ◌≡◌,
  refl, arith,
}
use nordvpn_linux.Config.{Config}
use nordvpn_linux.Config.{new_config}
use nordvpn_linux.Config.Manager.{File, absent, valid, Io}
use nordvpn_linux.Servers.{is_server_obfuscated}
use nordvpn_linux.Servers.Select.{Picked, picked, is_empty}
use nordvpn_linux.Servers.Dedicated.{Surroundings, select_server}
use nordvpn_linux.Daemon.State.{
  Env, Daemon, Call, Event, Reply, Code, payload, load_config, save_config, loading,
}
use nordvpn_linux.Daemon.Subnets.{AddressParser}
use nordvpn_linux.Daemon.Tunnel.{obfuscation_mismatch}
use nordvpn_linux.Daemon.Allowlisting
use nordvpn_linux.Daemon.Allowlisting.{AllowlistRequest, NewAllowlist}
use nordvpn_linux.Daemon.Meshnet
use nordvpn_linux.Daemon.Meshnet.{MeshEnv}
use nordvpn_linux.Daemon.Autoconnect
use nordvpn_linux.Daemon.Autoconnect.{
  Cached, ServerParameters, no_parameters, criteria, get_server_parameters,
}
use nordvpn_linux.Daemon.Consistency.{IsSettled}
use nordvpn_linux.Daemon.Consistency.Others.{handle_new_allowlist-IsSettled}

-- the configuration that the file holds, or that a load of no file starts with
abbrev IsCurrent : File → Config → Type 0
IsCurrent f cfg = ((c : Config) → f ≡ valid c → cfg ≡ c) × (f ≡ absent → cfg ≡ new_config)

abbrev daemon : File → List Call → List Event → Daemon
daemon f cs es = record { file = f; calls = cs; events = es }

-- `env` reads the file without a fault; `cs` and `es` are the calls and events so far
module _ (env : Env) (steady : env.load_io.read_fails ≡ false) (cs : List Call)
    (es : List Event) where
  if-IsSettled :
      (b : Bool) (x y : Daemon × Reply)
      → IsSettled x.0.file
      → IsSettled y.0.file
      → IsSettled (if b then x else y).0.file
  if-IsSettled true x y hx hy = hx
  if-IsSettled false x y hx hy = hy

  load_config-IsSettled :
      (f : File)
      → IsSettled f
      → IsSettled (load_config env (daemon f cs es)).2.file
        × IsCurrent (load_config env (daemon f cs es)).2.file (load_config env (daemon f cs es)).0
  unfolding load_config
  load_config-IsSettled (valid c) h =
      (λ c' e. ground (arith, h c refl), (λ c' e. ground (arith, steady), λ e. ground arith))
  load_config-IsSettled _ h = (λ c' e. ground arith, (λ c' e. ground arith, λ e. ground arith))

  -- a handler behind a load
  loading-IsSettled :
      (k : Config → Daemon → Daemon × Reply) (f : File)
      → ((cfg : Config) (g : File)
          → IsSettled g
          → IsCurrent g cfg
          → IsSettled (k cfg (daemon g cs es)).0.file)
      → IsSettled f
      → IsSettled (loading env (daemon f cs es) k).0.file
  unfolding load_config
  loading-IsSettled k f keep h =
      let (settled, current) = load_config-IsSettled f h in
      keep (load_config env (daemon f cs es)).0 (load_config env (daemon f cs es)).2.file settled
        current

  save_enabled-IsSettled :
      (tag : Text) (parameters : ServerParameters) (cfg : Config) (f : File)
      → IsSettled f
      → IsCurrent f cfg
      → IsSettled (Autoconnect.save_enabled env tag parameters cfg (daemon f cs es)).0.file
  unfolding Autoconnect.save_enabled
  save_enabled-IsSettled tag parameters cfg (valid c) h same c' e =
      ground (arith, h c refl, same.0 c refl)
  save_enabled-IsSettled tag parameters cfg absent h same c' e = ground (arith, same.1 refl)
  save_enabled-IsSettled tag parameters cfg _ h same c' e = ground arith

  on_selected-IsSettled :
      (tag : Text) (parameters : ServerParameters) (cfg : Config) (p : Picked) (f : File)
      → IsSettled f
      → IsCurrent f cfg
      → IsSettled (Autoconnect.on_selected env tag parameters cfg p (daemon f cs es)).0.file
  unfolding Autoconnect.on_selected
  on_selected-IsSettled tag parameters cfg (picked s remote) f h same =
      save_enabled-IsSettled tag parameters cfg f h same
  on_selected-IsSettled tag parameters cfg _ f h same = h

  enable_auto_connect-IsSettled :
      (s : Surroundings) (cached : Cached) (tag : Text) (cfg : Config) (f : File)
      → IsSettled f
      → IsCurrent f cfg
      → IsSettled (Autoconnect.enable_auto_connect env s cached tag cfg (daemon f cs es)).0.file
  unfolding Autoconnect.enable_auto_connect
  enable_auto_connect-IsSettled s cached tag cfg f h same = go (
      obfuscation_mismatch (is_server_obfuscated cached.servers tag)
        cfg.auto_connect_data.obfuscate)
    where
      go :
          (o : Option Code)
          → IsSettled
              (elim o as (λ _. Daemon × Reply) [
                | some code ↦ (daemon f cs es, payload code)
                | none ↦
                    if is_empty tag
                    then Autoconnect.save_enabled env tag no_parameters cfg (daemon f cs es)
                    else Autoconnect.on_selected env tag
                        (get_server_parameters s.equal_fold tag tag cached.countries)
                        cfg
                        (select_server s (criteria cached tag cfg))
                        (daemon f cs es)
              ]).0.file
      go (some code) = h
      go none =
          if-IsSettled (is_empty tag) _ _ (save_enabled-IsSettled tag no_parameters cfg f h same) (
            on_selected-IsSettled tag (get_server_parameters s.equal_fold tag tag cached.countries)
              cfg (select_server s (criteria cached tag cfg)) f h same)

  disabled-IsSettled :
      (f : File)
      → IsSettled f
      → IsSettled (save_config env (λ c. record c { auto_connect = false }) (daemon f cs es)).1.file
  unfolding save_config
  disabled-IsSettled (valid c) h c' e = ground (arith, h c refl)
  disabled-IsSettled _ h c' e = ground arith

  change_auto_connect-IsSettled :
      (s : Surroundings) (cached : Cached) (enabled : Bool) (tag : Text) (cfg : Config) (f : File)
      → IsSettled f
      → IsCurrent f cfg
      → IsSettled
          (Autoconnect.change_auto_connect env s cached enabled tag cfg (daemon f cs es)).0.file
  unfolding Autoconnect.change_auto_connect
  change_auto_connect-IsSettled s cached enabled tag cfg f h same =
      if-IsSettled (not cfg.auto_connect && not enabled) _ _ h (
        if-IsSettled enabled _ _ (enable_auto_connect-IsSettled s cached tag cfg f h same) (
          if-IsSettled (save_config env (λ c. record c { auto_connect = false }) (daemon f cs es)).0
            _ _ (disabled-IsSettled f h) (disabled-IsSettled f h)))

  pub set_auto_connect-IsSettled :
      (s : Surroundings) (cached : Cached) (logged_in enabled : Bool) (tag : Text) (f : File)
      → IsSettled f
      → IsSettled
          (Autoconnect.set_auto_connect env s cached logged_in enabled tag (daemon f cs es)).0.file
  unfolding Autoconnect.set_auto_connect
  set_auto_connect-IsSettled s cached false enabled tag f h = h
  set_auto_connect-IsSettled s cached true enabled tag f h =
      loading-IsSettled (Autoconnect.change_auto_connect env s cached enabled tag) f
        (change_auto_connect-IsSettled s cached enabled tag) h

  handle_if_valid-IsSettled :
      (new : NewAllowlist) (f : File)
      → IsSettled f
      → IsSettled (Allowlisting.handle_if_valid env new (daemon f cs es)).0.file
  unfolding Allowlisting.handle_if_valid
  handle_if_valid-IsSettled (NewAllowlist.invalid code) f h = h
  handle_if_valid-IsSettled (NewAllowlist.valid a) f h =
      handle_new_allowlist-IsSettled env steady cs es a f h

  pub change_allowlist-IsSettled :
      (parser : AddressParser) (request : AllowlistRequest) (removing : Bool) (f : File)
      → IsSettled f
      → IsSettled
          (Allowlisting.change_allowlist env parser request removing (daemon f cs es)).0.file
  unfolding Allowlisting.change_allowlist
  change_allowlist-IsSettled parser request removing f h =
      let (settled, _) = load_config-IsSettled f h in
      if-IsSettled (not (load_config env (daemon f cs es)).1) _ _ settled (
        handle_if_valid-IsSettled
          (Allowlisting.get_new_allowlist parser request removing
            (load_config env (daemon f cs es)).0)
          (load_config env (daemon f cs es)).2.file settled)

  pub set_defaults-IsSettled :
      (reload_io : Io) (has_vpn : Bool) (f : File)
      → IsSettled f
      → IsSettled
          (Meshnet.set_defaults env reload_io has_vpn
            (record { file = f; calls = cs; events = es })).0.file
  unfolding Meshnet.set_defaults
  set_defaults-IsSettled reload_io has_vpn (valid c) h c' e = ground (arith, h c refl)
  set_defaults-IsSettled reload_io has_vpn _ h c' e = ground arith
