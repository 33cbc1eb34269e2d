-- ===== src/Auth/Steps.antt =====
-- What a call and a write of the settings lead to.
use nordvpn_linux.Prelude.{ℤ, List, ◌∷◌, none, some, ◌≡◌, ap}
use nordvpn_linux.Prelude.Action.{◌>>◌}
use nordvpn_linux.Auth.{
  TokenData, AuthError, Call, save_config, Api, Account, Method, answered, asking, saving,
}

module _ (api : Api) where
  pub saving-saved :
      (f : List (ℤ × TokenData) → List (ℤ × TokenData)) (s : Account)
      → api.answers s.calls save_config ≡ none
      → saving api f s ≡ (none, record s { users = f s.users; calls = save_config ∷ s.calls })
  unfolding saving asking
  saving-saved f s e = simp (e)

  pub asking-refused :
      (c : Call) (on_error : AuthError → Method) (k : Method) (s : Account) (e : AuthError)
      → api.answers s.calls c ≡ some e
      → asking api c on_error k s ≡ on_error e (record s { calls = c ∷ s.calls })
  unfolding asking
  asking-refused c on_error k s e h =
      ap (λ r. answered api on_error k (r, record s { calls = c ∷ s.calls })) h

  pub asking-granted :
      (c : Call) (on_error : AuthError → Method) (k : Method) (s : Account)
      → api.answers s.calls c ≡ none
      → asking api c on_error k s ≡ k (record s { calls = c ∷ s.calls })
  unfolding asking
  asking-granted c on_error k s h =
      ap (λ r. answered api on_error k (r, record s { calls = c ∷ s.calls })) h

  pub saving-then :
      (f : List (ℤ × TokenData) → List (ℤ × TokenData)) (k : Method) (s : Account)
      → api.answers s.calls save_config ≡ none
      → (saving api f >> k) s ≡ k (record s { users = f s.users; calls = save_config ∷ s.calls })
  unfolding ◌>>◌
  saving-then f k s e = ap (λ r. ((λ t. r) >> k) s) (saving-saved f s e)
