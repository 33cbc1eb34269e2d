-- ===== src/Prelude/Action.antt =====
-- Methods of a shared object that may return an error. What a method wrote before it fails stays written.
use mathlib.Core.Path.{◌≡◌, refl, sym, subst}
use mathlib.Core.Bool.{Bool, true, false}
use mathlib.Core.Option.{Option, none, some}
use mathlib.Core.List.{List, [], ◌∷◌}
use nordvpn_linux.Prelude.Tests.{if◌then◌else◌}

abbrev pub Action : Type 0 → Type 0 → Type 0
Action E S = S → Option E × S

module _ {E S : Type 0} where
  -- `return nil`
  unfoldable pub succeed : Action E S
  succeed s = (none, s)

  unfoldable pub fail : E → Action E S
  fail e s = (some e, s)

  unfoldable pub update : (S → S) → Action E S
  update f s = (none, f s)

  -- a method whose code depends on the object's fields at that point
  unfoldable pub reading : (S → Action E S) → Action E S
  reading f s = f s s

  -- an error that is only logged
  unfoldable pub ignoring : Action E S → Action E S
  ignoring m s = (none, (m s).1)

  abbrev go_on : Option E → Action E S → Action E S
  go_on none k s = k s
  go_on (some e) k s = (some e, s)

  abbrev pub when : Bool → Action E S → Action E S
  when b m = if b then m else succeed

  abbrev handled : (E → Action E S) → Option E → Action E S
  handled h none s = (none, s)
  handled h (some e) s = h e s

  -- the handler runs on the error, and its own error is the result
  unfoldable pub catching : (E → Action E S) → Action E S → Action E S
  catching h m s = let (r, s') = m s in handled h r s'

  abbrev cleaned_up : Action E S → Option E → Action E S
  cleaned_up cleanup none s = (none, s)
  cleaned_up cleanup (some e) s = (some e, (cleanup s).1)

  -- defer func() { if err != nil { cleanup() } }()
  unfoldable pub recovering : Action E S → Action E S → Action E S
  recovering cleanup m s = let (r, s') = m s in cleaned_up cleanup r s'

  infixl 10 ◌>>◌
  -- if err := m(); err != nil { return err }; k
  -- Opening this opens the methods above.
  unfoldable pub ◌>>◌ : Action E S → Action E S → Action E S
  unfolding succeed fail update reading ignoring catching recovering
  ◌>>◌ m k s = let (r, s') = m s in go_on r k s'

  unfoldable pub for_each {ℓ} : {A : Type ℓ} → (A → Action E S) → List A → Action E S
  unfolding ◌>>◌
  for_each f [] = succeed
  for_each f (a ∷ xs) = f a >> for_each f xs

  -- `m` keeps `P`, whether it fails or not
  pub record Keeps (P : S → Type 0) (m : Action E S) : Type 0 where
    pub at : (s : S) → P s → P (m s).1

module _ {E S : Type 0} {P : S → Type 0} where
  pub Keeps-succeed : Keeps P (succeed {E = E})
  unfolding succeed
  Keeps-succeed = record { at = λ s h. h }

  pub Keeps-fail : (e : E) → Keeps P (fail e)
  unfolding fail
  Keeps-fail e = record { at = λ s h. h }

  pub Keeps-update : (f : S → S) → ((s : S) → P s → P (f s)) → Keeps P (update {E = E} f)
  unfolding update
  Keeps-update f k = record { at = k }

  pub Keeps-reading : (f : S → Action E S) → ((s : S) → P s → P (f s s).1) → Keeps P (reading f)
  unfolding reading
  Keeps-reading f k = record { at = k }

  -- the fields read do not matter
  pub Keeps-reading_all : (f : S → Action E S) → ((s : S) → Keeps P (f s)) → Keeps P (reading f)
  unfolding reading
  Keeps-reading_all f k = record { at = λ s. (k s).at s }

  pub Keeps-ignoring : (m : Action E S) → Keeps P m → Keeps P (ignoring m)
  unfolding ignoring
  Keeps-ignoring m k = record { at = k.at }

  go_on-at : (r : Option E) (k : Action E S) (s : S) → Keeps P k → P s → P (go_on r k s).1
  go_on-at none k s kk h = kk.at s h
  go_on-at (some e) k s kk h = h

  pub Keeps->> : (m k : Action E S) → Keeps P m → Keeps P k → Keeps P (m >> k)
  unfolding ◌>>◌
  Keeps->> m k km kk = record { at = λ s h. go_on-at (m s).0 k (m s).1 kk (km.at s h) }

  pub Keeps-if :
      (b : Bool) (m n : Action E S) → Keeps P m → Keeps P n → Keeps P (if b then m else n)
  Keeps-if true m n km kn = km
  Keeps-if false m n km kn = kn

  handled-at :
      (h : E → Action E S) (r : Option E) (s : S)
      → ((e : E) → Keeps P (h e))
      → P s
      → P (handled h r s).1
  handled-at h none s kh p = p
  handled-at h (some e) s kh p = (kh e).at s p

  pub Keeps-catching :
      (h : E → Action E S) (m : Action E S)
      → ((e : E) → Keeps P (h e))
      → Keeps P m
      → Keeps P (catching h m)
  unfolding catching
  Keeps-catching h m kh km = record { at = λ s p. handled-at h (m s).0 (m s).1 kh (km.at s p) }

  cleaned_up-at : (c : Action E S) (r : Option E) (s : S) → Keeps P c → P s → P (cleaned_up c r s).1
  cleaned_up-at c none s kc p = p
  cleaned_up-at c (some e) s kc p = kc.at s p

  pub Keeps-recovering : (c m : Action E S) → Keeps P c → Keeps P m → Keeps P (recovering c m)
  unfolding recovering
  Keeps-recovering c m kc km = record { at = λ s p. cleaned_up-at c (m s).0 (m s).1 kc (km.at s p) }

  pub Keeps-for_each {ℓ} :
      {A : Type ℓ} (f : A → Action E S) (xs : List A)
      → ((a : A) → Keeps P (f a))
      → Keeps P (for_each f xs)
  unfolding for_each
  Keeps-for_each f [] k = Keeps-succeed
  Keeps-for_each f (a ∷ xs) k = Keeps->> (f a) (for_each f xs) (k a) (Keeps-for_each f xs k)

-- `R` holds after a success of `m`
pub record Ensures {E S : Type 0} (R : S → Type 0) (m : Action E S) : Type 0 where
  pub at : (s : S) → (m s).0 ≡ none → R (m s).1

module _ {E S : Type 0} {R : S → Type 0} where
  pub Ensures-update : (f : S → S) → ((s : S) → R (f s)) → Ensures R (update {E = E} f)
  unfolding update
  Ensures-update f h = record { at = λ s e. h s }

  pub Ensures->> : (m k : Action E S) → Ensures R k → Ensures R (m >> k)
  unfolding ◌>>◌
  Ensures->> m k h = record { at = λ s e. after (m s).0 (m s).1 e }
    where
      after : (r : Option E) (s : S) → (go_on r k s).0 ≡ none → R (go_on r k s).1
      after none s e = h.at s e
      after (some x) s e = cc

module _ {E S : Type 0} {P R : S → Type 0} where
  -- the second method may rely on what a success of the first ensures
  pub Keeps-ensured :
      (m k : Action E S)
      → Keeps P m
      → Ensures R m
      → ((s : S) → P s → R s → P (k s).1)
      → Keeps P (m >> k)
  unfolding ◌>>◌
  Keeps-ensured m k km em h = record { at = λ s p. after (m s).0 (m s).1 (km.at s p) (em.at s) }
    where
      after : (r : Option E) (s : S) → P s → (r ≡ none → R s) → P (go_on r k s).1
      after none s p e = h s p (e refl)
      after (some x) s p e = p

module _ {E S : Type 0} {P : S → Type 0} where
  -- `P` is restored by the second of two updates
  pub Keeps-both :
      (m : Action E S) (f g : S → S)
      → Keeps P m
      → ((s : S) → P s → P (g (f s)))
      → Keeps P (m >> update f >> update g)
  unfolding ◌>>◌ update
  Keeps-both m f g km h = record { at = λ s p. after (m s).0 (m s).1 (km.at s p) }
    where
      after :
          (r : Option E) (s : S)
          → P s
          → P (go_on (go_on r (update f) s).0 (update g) (go_on r (update f) s).1).1
      after none s p = h s p
      after (some x) s p = p

pub ruleset keeps_rules = (
  Keeps-succeed, Keeps-fail, Keeps-reading_all, Keeps-ignoring, Keeps->>, Keeps-if, Keeps-catching,
  Keeps-recovering, Keeps-for_each,
)

-- `m` never fails
pub record Succeeds {E S : Type 0} (m : Action E S) : Type 0 where
  pub at : (s : S) → (m s).0 ≡ none

module _ {E S : Type 0} where
  pub Succeeds-succeed : Succeeds (succeed {E = E} {S = S})
  unfolding succeed
  Succeeds-succeed = record { at = λ s. refl }

  pub Succeeds-update : (f : S → S) → Succeeds (update {E = E} f)
  unfolding update
  Succeeds-update f = record { at = λ s. refl }

  pub Succeeds-ignoring : (m : Action E S) → Succeeds (ignoring m)
  unfolding ignoring
  Succeeds-ignoring m = record { at = λ s. refl }

  pub Succeeds-reading : (f : S → Action E S) → ((s : S) → Succeeds (f s)) → Succeeds (reading f)
  unfolding reading
  Succeeds-reading f h = record { at = λ s. (h s).at s }

  pub Succeeds-if :
      (b : Bool) (m n : Action E S) → Succeeds m → Succeeds n → Succeeds (if b then m else n)
  Succeeds-if true m n hm hn = hm
  Succeeds-if false m n hm hn = hn

  pub Succeeds->> : (m k : Action E S) → Succeeds m → Succeeds k → Succeeds (m >> k)
  unfolding ◌>>◌
  Succeeds->> m k hm hk = record {
    at = λ s. subst (λ r. (go_on r k (m s).1).0 ≡ none) (sym (hm.at s)) (hk.at (m s).1);
  }

pub ruleset succeeds_rules = (
  Succeeds-succeed, Succeeds-update, Succeeds-ignoring, Succeeds-reading, Succeeds-if, Succeeds->>,
)
