-- ===== src/Auth/Settling.antt =====
-- What the renewal of the logins reaches where nothing fails.
use nordvpn_linux.Prelude.{
  ℤ, int_eq, Bool, true, false, ◌&&◌, ◌||◌, List, [], ◌∷◌, Option, none, some, if◌then◌else◌,
  string_eq, ◌==◌, ◌≡◌, refl, ap, ◌∙◌, sym, subst, arith, Bool-cases, inl, inr,
}
use nordvpn_linux.Prelude.Action.{succeed, reading}
use nordvpn_linux.Auth.Steps.{saving-saved, asking-granted, saving-then}
use nordvpn_linux.Auth.Renewing.{is_fresh}
use nordvpn_linux.Auth.{
  TokenData, AuthError, Call, renew_login, notification_credentials, trusted_pass,
  service_credentials, Api, Account, Method, find_user, change_user, is_expired, storing, trusting,
  renew_token_of, with_login, with_notifications, with_trusted, with_vpn, save_login_token,
  save_vpn_server_credentials, renew_trusted_pass_of, renew_vpn_credentials_of, renew,
}

-- the user is there, and nothing of its data has to be renewed
unfoldable pub is_settled : Api → ℤ → List (ℤ × TokenData) → Bool
unfolding find_user is_fresh
is_settled api v ts = elim (find_user v ts) [ none ↦ false | some d ↦ is_fresh api d ]

is_settled-some :
    (api : Api) (v : ℤ) (d : TokenData) (ts : List (ℤ × TokenData))
    → find_user v ts ≡ some d
    → is_fresh api d ≡ true
    → is_settled api v ts ≡ true
unfolding is_settled
is_settled-some api v d ts e h = rw (e, is_settled) h

change_user-find_self :
    (u : ℤ) (f : TokenData → TokenData) (d : TokenData) (ts : List (ℤ × TokenData))
    → find_user u ts ≡ some d
    → find_user u (change_user u f ts) ≡ some (f d)
unfolding find_user change_user
change_user-find_self u f d [] h = cc
change_user-find_self u f d ((w, e) ∷ ts) h =
    ground (arith, change_user-find_self u f d ts, int_eq.beq_iff w u)

and-false : (b : Bool) → (b && false) ≡ false
and-false true = refl
and-false false = refl

abbrev lacks_credentials : TokenData → Bool
lacks_credentials d =
    d.nordlynx_private_key == "" || d.openvpn_username == "" || d.openvpn_password == ""

is_fresh-true :
    (api : Api) (d : TokenData)
    → is_expired api d.token_expiry ≡ false
    → (d.is_oauth && (d.trusted_pass_token == "" || d.trusted_pass_owner_id == "")) ≡ false
    → lacks_credentials d ≡ false
    → is_fresh api d ≡ true
unfolding is_fresh
is_fresh-true api d current passes connected = rw (current, passes, connected) refl

abbrev lacks_trusted_pass : TokenData → Bool
lacks_trusted_pass d = d.is_oauth && (d.trusted_pass_token == "" || d.trusted_pass_owner_id == "")

module _ (api : Api) (v : ℤ) (granted : (h : List Call) (c : Call) → api.answers h c ≡ none)
    (valid : (h : List Call) → is_expired api (api.login h).2 ≡ false)
    (trusted : (h : List Call) → ((api.trusted h).1 == "" || (api.trusted h).0 == "") ≡ false)
    (connects : (h : List Call)
      → ((api.vpn h).0 == "" || (api.vpn h).1 == "" || (api.vpn h).2 == "") ≡ false) where
  abbrev pub Settles : Option AuthError × Account → Type 0
  Settles r = (r.0 ≡ none) × (is_settled api v r.1.users ≡ true)

  renew_vpn_credentials_of-Settles :
      (d : TokenData) (s : Account)
      → find_user v s.users ≡ some d
      → is_expired api d.token_expiry ≡ false
      → lacks_trusted_pass d ≡ false
      → Settles (renew_vpn_credentials_of api v d s)
  unfolding renew_vpn_credentials_of save_vpn_server_credentials reading succeed
  renew_vpn_credentials_of-Settles d s found current passes =
      elim (Bool-cases (lacks_credentials d)) [
        | inl lacking ↦
            let t = record s { calls = service_credentials d.token ∷ s.calls } in
            let d' = with_vpn api (api.vpn t.calls) d in
            rw lacking (
              subst Settles
                (sym (
                  asking-granted api (service_credentials d.token) _ _ s (granted _ _)
                  ∙ saving-saved api (change_user v (save_vpn_server_credentials d')) t
                      (granted _ _)))
                (
                  refl,
                  is_settled-some api v (save_vpn_server_credentials d' d) _
                      (change_user-find_self v (save_vpn_server_credentials d') d s.users found)
                      (is_fresh-true api (save_vpn_server_credentials d' d) current passes
                        (connects _)),
                ))
        | inr connected ↦ rw connected (
          refl,
          is_settled-some api v d s.users found (is_fresh-true api d current passes connected),
        )
      ]

  storing-Settles :
      (k : TokenData → Method) (d e : TokenData) (s : Account)
      → find_user v s.users ≡ some e
      → save_login_token d e ≡ d
      → ((t : Account) → find_user v t.users ≡ some d → Settles (k d t))
      → Settles (storing api v k d s)
  unfolding storing
  storing-Settles k d e s found saved h =
      subst Settles
        (sym (saving-then api (change_user v (save_login_token d)) (k d) s (granted _ _)))
        (h _ (change_user-find_self v (save_login_token d) e s.users found ∙ ap some saved))

  trusting-Settles :
      (k : TokenData → Method) (d e : TokenData) (s : Account)
      → find_user v s.users ≡ some e
      → ((h : List Call)
          → save_login_token (with_trusted api (api.trusted h) d) e
            ≡ with_trusted api (api.trusted h) d)
      → ((h : List Call) (t : Account)
          → find_user v t.users ≡ some (with_trusted api (api.trusted h) d)
          → Settles (k (with_trusted api (api.trusted h) d) t))
      → Settles (trusting api v k d s)
  unfolding trusting reading
  trusting-Settles k d e s found saved h =
      subst Settles (sym (asking-granted api (trusted_pass d.token) _ _ s (granted _ _)))
        (storing-Settles k _ e _ found (saved _) (h _))

  renew_trusted_pass_of-Settles :
      (d : TokenData) (s : Account)
      → find_user v s.users ≡ some d
      → is_expired api d.token_expiry ≡ false
      → Settles (renew_trusted_pass_of api v (renew_vpn_credentials_of api v) d s)
  unfolding renew_trusted_pass_of save_login_token
  renew_trusted_pass_of-Settles d s found current = elim (Bool-cases (lacks_trusted_pass d)) [
    | inl lacking ↦ rw lacking (
        trusting-Settles (renew_vpn_credentials_of api v) d d s found (λ h. refl)
          (λ h t e.
            renew_vpn_credentials_of-Settles _ t e current
              (ap (λ c. d.is_oauth && c) (trusted h) ∙ and-false d.is_oauth)))
    | inr passes ↦ rw passes (renew_vpn_credentials_of-Settles d s found current passes)
  ]

  -- the data after the two calls that renew a token
  abbrev renewed_login : TokenData → Account → TokenData
  renewed_login d s =
      let calls = renew_login d.renew_token ∷ s.calls in
      let d' = with_login api (api.login calls) d in
      with_notifications api
        (api.notifications (notification_credentials d'.token d.nc_user_id ∷ calls)) d'

  abbrev asked_login : TokenData → Account → Account
  asked_login d s =
      let calls = renew_login d.renew_token ∷ s.calls in
      let d' = with_login api (api.login calls) d in
      record s { calls = notification_credentials d'.token d.nc_user_id ∷ calls }

  renew_token_of-expired :
      (k : TokenData → Method) (d : TokenData) (s : Account)
      → is_expired api d.token_expiry ≡ true
      → renew_token_of api v k d s
        ≡ (if d.is_oauth
              then trusting api v k (renewed_login d s)
              else storing api v k (renewed_login d s))
            (asked_login d s)
  unfolding renew_token_of reading
  renew_token_of-expired k d s expired = rw expired (
      asking-granted api (renew_login d.renew_token) _ _ s (granted _ _)
      ∙ asking-granted api _ _ _ (record s { calls = renew_login d.renew_token ∷ s.calls })
          (granted _ _))

  renew_token_of-current :
      (k : TokenData → Method) (d : TokenData) (s : Account)
      → is_expired api d.token_expiry ≡ false
      → renew_token_of api v k d s ≡ k d s
  unfolding renew_token_of
  renew_token_of-current k d s current = rw current refl

  renew_lem :
      (d : TokenData) (s : Account)
      → renew api v d s
        ≡ renew_token_of api v (renew_trusted_pass_of api v (renew_vpn_credentials_of api v)) d s
  unfolding renew
  renew_lem d s = refl

  stored_login :
      (d : TokenData) (s : Account) → save_login_token (renewed_login d s) d ≡ renewed_login d s
  unfolding save_login_token
  stored_login d s = refl

  stored_trusted :
      (d : TokenData) (s : Account) (h : List Call)
      → save_login_token (with_trusted api (api.trusted h) (renewed_login d s)) d
        ≡ with_trusted api (api.trusted h) (renewed_login d s)
  unfolding save_login_token
  stored_trusted d s h = refl

  by_login :
      (oauth : Bool) (k : TokenData → Method) (d : TokenData) (s : Account)
      → find_user v s.users ≡ some d
      → ((d' : TokenData) (t : Account)
          → find_user v t.users ≡ some d'
          → is_expired api d'.token_expiry ≡ false
          → Settles (k d' t))
      → Settles (
          (if oauth
              then trusting api v k (renewed_login d s)
              else storing api v k (renewed_login d s))
            (asked_login d s))
  by_login true k d s found h =
      trusting-Settles k (renewed_login d s) d (asked_login d s) found (stored_trusted d s)
        (λ c t e. h _ t e (valid _))
  by_login false k d s found h =
      storing-Settles k (renewed_login d s) d (asked_login d s) found (stored_login d s)
        (λ t e. h _ t e (valid _))

  pub renew-Settles :
      (d : TokenData) (s : Account) → find_user v s.users ≡ some d → Settles (renew api v d s)
  renew-Settles d s found =
      subst Settles (sym (renew_lem d s)) (elim (Bool-cases (is_expired api d.token_expiry)) [
        | inl expired ↦
            subst Settles (sym (renew_token_of-expired _ d s expired))
              (by_login d.is_oauth _ d s found renew_trusted_pass_of-Settles)
        | inr current ↦
            subst Settles (sym (renew_token_of-current _ d s current))
              (renew_trusted_pass_of-Settles d s found current)
      ])
