-- ===== src/Meshnet/Registration/Effect.antt =====
-- What a registration leaves.
use nordvpn_linux.Prelude.{
  Bool, true, String, Option, none, some, string_eq, ◌≡◌, refl, Bool-cases, inl, inr,
}
use nordvpn_linux.Meshnet.{Backend, Server, Device, ApiError, send, load_config, save_config}
use nordvpn_linux.Meshnet.Registration.Keeping.{
  check_registration-Keeps, register_device_again-Keeps,
}
use nordvpn_linux.Meshnet.Registration.{
  register, stored, settled, checked, check_registration, register_device_again,
  is_registration_info_correct,
}

module _ (b : Backend) where
  pub check_registration-netw : (s : Server) → (check_registration b s).1.netw ≡ s.netw
  check_registration-netw s =
      check_registration-Keeps b (λ t. t.netw ≡ s.netw) (λ q t own h. h) (λ d key t h. h) s refl

  pub register_device_again-netw : (s : Server) → (register_device_again b s).1.netw ≡ s.netw
  register_device_again-netw s =
      register_device_again-Keeps b (λ t. t.netw ≡ s.netw) (λ q t own h. h) (λ d key t h. h) s refl

  -- the device and the key that are stored
  abbrev IsComplete : Bool × Server → Type 0
  IsComplete r = r.0 ≡ true → is_registration_info_correct b r.1.settings ≡ true

  stored-IsComplete :
      (d : Device) (key : String) (r : Option ApiError × Server) → IsComplete (stored b d key r)
  unfolding is_registration_info_correct
  stored-IsComplete d key (none, s) h = h
  stored-IsComplete d key (some e, s) h = cc

  settled-IsComplete : (r : Option (Device × String) × Server) → IsComplete (settled b r)
  settled-IsComplete (none, s) h = cc
  settled-IsComplete (some (d, key), s) h = stored-IsComplete d key (send b save_config s) h

  checked-IsComplete : (r : Option ApiError × Server) → IsComplete (checked b r)
  checked-IsComplete (some e, s) = λ h. cc
  checked-IsComplete (none, s) = elim (Bool-cases (is_registration_info_correct b s.settings)) [
    | inl p ↦ rw p (λ h. p)
    | inr p ↦ rw p (settled-IsComplete (register b s.settings s))
  ]

  pub check_registration-IsComplete : (s : Server) → IsComplete (check_registration b s)
  unfolding check_registration
  check_registration-IsComplete s = checked-IsComplete (send b load_config s)
