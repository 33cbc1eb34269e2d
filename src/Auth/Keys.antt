-- ===== src/Auth/Keys.antt =====
-- The keys of the map of users, and that a renewal keeps them distinct.
use nordvpn_linux.Prelude.{
  ℤ, int_eq, Bool, true, false, not, ◌&&◌, ◌||◌, List, [], ◌∷◌, none, some, ◌==◌, ◌≡◌, refl, arith,
  Bool-cases, inl, inr,
}
use nordvpn_linux.Auth.Sparing.{renew-Spares}
use nordvpn_linux.Auth.{
  TokenData, Api, Account, find_user, change_user, delete_user, renew, renew_all,
}

unfoldable pub has_user : ℤ → List (ℤ × TokenData) → Bool
has_user v [] = false
has_user v ((u, d) ∷ ts) = u == v || has_user v ts

-- no key stands twice, as in a map of Go
unfoldable pub is_map : List (ℤ × TokenData) → Bool
unfolding has_user
is_map [] = true
is_map ((u, d) ∷ ts) = not (has_user u ts) && is_map ts

pub find_user-none :
    (v : ℤ) (ts : List (ℤ × TokenData)) → has_user v ts ≡ false → find_user v ts ≡ none
unfolding has_user find_user
find_user-none v [] h = refl
find_user-none v ((u, d) ∷ ts) h = ground (arith, find_user-none v ts)

pub find_user-some :
    (v : ℤ) (ts : List (ℤ × TokenData))
    → has_user v ts ≡ true
    → (d : TokenData) × (find_user v ts ≡ some d)
unfolding has_user find_user
find_user-some v [] h = cc
find_user-some v ((u, d) ∷ ts) h = elim (Bool-cases (u == v)) [
  | inl same ↦ (d, rw same refl)
  | inr differs ↦ let rest = find_user-some v ts (ground arith) in (rest.0, rw differs rest.1)
]

change_user-has_user :
    (u v : ℤ) (f : TokenData → TokenData) (ts : List (ℤ × TokenData))
    → (u == v) ≡ false
    → has_user v (change_user u f ts) ≡ has_user v ts
unfolding has_user change_user
change_user-has_user u v f [] h = ground arith
change_user-has_user u v f ((w, d) ∷ ts) h = ground (
  arith,
  change_user-has_user u v f ts h,
  int_eq.beq_iff w u,
  int_eq.beq_iff w v,
  int_eq.beq_iff u v,
)

delete_user-has_user :
    (u v : ℤ) (ts : List (ℤ × TokenData))
    → has_user v ts ≡ false
    → has_user v (delete_user u ts) ≡ false
unfolding has_user delete_user
delete_user-has_user u v [] h = refl
delete_user-has_user u v ((w, d) ∷ ts) h = ground (arith, delete_user-has_user u v ts)

change_user-is_map :
    (u : ℤ) (f : TokenData → TokenData) (ts : List (ℤ × TokenData))
    → is_map ts ≡ true
    → is_map (change_user u f ts) ≡ true
unfolding is_map change_user has_user
change_user-is_map u f [] h = refl
change_user-is_map u f ((w, d) ∷ ts) h = ground (
  arith,
  change_user-is_map u f ts,
  change_user-has_user u w f ts,
  int_eq.beq_iff w u,
  int_eq.beq_iff u w,
)

delete_user-is_map :
    (u : ℤ) (ts : List (ℤ × TokenData)) → is_map ts ≡ true → is_map (delete_user u ts) ≡ true
unfolding is_map delete_user
delete_user-is_map u [] h = refl
delete_user-is_map u ((w, d) ∷ ts) h =
    ground (arith, delete_user-is_map u ts, delete_user-has_user u w ts)

pub renew_all-is_map :
    (api : Api) (ts : List (ℤ × TokenData)) (s : Account)
    → is_map s.users ≡ true
    → is_map (renew_all api ts s).1.users ≡ true
unfolding renew_all
renew_all-is_map api [] s h = h
renew_all-is_map api ((u, d) ∷ ts) s h = renew_all-is_map api ts (renew api u d s).1 (
    (renew-Spares api (λ us. is_map us ≡ true) u (change_user-is_map u) (delete_user-is_map u) d).at
      s h)
