-- ===== src/Meshnet/Registration/Keeping.antt =====
-- A registration keeps what its requests and the writing of the device keep.
use nordvpn_linux.Prelude.{
  Bool, true, false, ◌∷◌, String, Option, none, some, string_eq, ◌==◌, ◌≡◌, refl, Bool-cases, inl,
  inr,
}
use nordvpn_linux.Meshnet.{
  Backend, Server, Settings, Device, ApiError, Request, conflict, configure, send, load_config,
  save_config, release_name, generate_key,
}
use nordvpn_linux.Meshnet.Registration.{
  generate, key_of, apply_for, accepted, after_first, named, register, stored, settled, checked,
  check_registration, registered_again, register_device_again, is_registration_info_correct,
}

-- the request changes a peer
abbrev pub is_configure : Request → Bool
is_configure (configure token device peer update) = true
is_configure _ = false

module _ (b : Backend) (P : Server → Type 0)
    (asked : (q : Request) (s : Server)
      → is_configure q ≡ false
      → P s
      → P (record s { requests = q ∷ s.requests }))
    (written : (d : Device) (key : String) (s : Server)
      → P s
      → P (record s {
        settings = record (s.settings) { device = some d; private_key = key };
      })) where
  accepted-Keeps : (key : String) (r : Option ApiError × Server) → P r.1 → P (accepted b key r).1
  accepted-Keeps key (none, s) h = h
  accepted-Keeps key (some e, s) h = h

  generate-Keeps : (s : Server) → P s → P (generate b s).1
  unfolding generate send
  generate-Keeps s h = asked generate_key s refl h

  apply_for-Keeps : (cfg : Settings) (key : String) (s : Server) → P s → P (apply_for b cfg key s).1
  unfolding apply_for send
  apply_for-Keeps cfg key s h = asked _ s refl h

  after_first-Keeps :
      (cfg : Settings) (key : String) (r : Option ApiError × Server)
      → P r.1
      → P (after_first b cfg key r).1
  after_first-Keeps cfg key (none, s) h = h
  after_first-Keeps cfg key (some conflict, s) h =
      let next = generate b s in
      accepted-Keeps next.0 (apply_for b cfg next.0 next.1)
        (apply_for-Keeps cfg next.0 next.1 (generate-Keeps s h))
  after_first-Keeps cfg key (some _, s) h = h

  named-Keeps :
      (cfg : Settings) (key : String) (r : Option ApiError × Server)
      → P r.1
      → P (named b cfg key r).1
  named-Keeps cfg key (none, s) h =
      after_first-Keeps cfg key (apply_for b cfg key s) (apply_for-Keeps cfg key s h)
  named-Keeps cfg key (some e, s) h = h

  key_of-Keeps : (cfg : Settings) (s : Server) → P s → P (key_of b cfg s).1
  unfolding key_of
  key_of-Keeps cfg s h = elim (Bool-cases (cfg.private_key == "")) [
    | inl p ↦ rw p (generate-Keeps s h)
    | inr p ↦ rw p h
  ]

  register-Keeps : (cfg : Settings) (s : Server) → P s → P (register b cfg s).1
  unfolding register send
  register-Keeps cfg s h =
      let next = key_of b cfg s in
      named-Keeps cfg next.0 (send b release_name next.1)
        (asked release_name next.1 refl (key_of-Keeps cfg s h))

  stored-Keeps :
      (d : Device) (key : String) (r : Option ApiError × Server) → P r.1 → P (stored b d key r).1
  stored-Keeps d key (none, s) h = written d key s h
  stored-Keeps d key (some e, s) h = h

  settled-Keeps : (r : Option (Device × String) × Server) → P r.1 → P (settled b r).1
  unfolding send
  settled-Keeps (none, s) h = h
  settled-Keeps (some (d, key), s) h =
      stored-Keeps d key (send b save_config s) (asked save_config s refl h)

  registered-Keeps : (s : Server) → P s → P (settled b (register b s.settings s)).1
  registered-Keeps s h = settled-Keeps (register b s.settings s) (register-Keeps s.settings s h)

  checked-Keeps : (r : Option ApiError × Server) → P r.1 → P (checked b r).1
  checked-Keeps (some e, s) h = h
  checked-Keeps (none, s) h = elim (Bool-cases (is_registration_info_correct b s.settings)) [
    | inl p ↦ rw p h
    | inr p ↦ rw p (registered-Keeps s h)
  ]

  pub check_registration-Keeps : (s : Server) → P s → P (check_registration b s).1
  unfolding check_registration send
  check_registration-Keeps s h = checked-Keeps (send b load_config s) (asked load_config s refl h)

  registered_again-Keeps : (r : Option ApiError × Server) → P r.1 → P (registered_again b r).1
  registered_again-Keeps (some e, s) h = h
  registered_again-Keeps (none, s) h = registered-Keeps s h

  pub register_device_again-Keeps : (s : Server) → P s → P (register_device_again b s).1
  unfolding register_device_again send
  register_device_again-Keeps s h =
      registered_again-Keeps (send b load_config s) (asked load_config s refl h)
