-- ===== src/Prelude/Lists.antt =====
-- Lists as the sets and the searches that Go's maps and `slices` package give.
use Prim.Native.Nat.{ℕ, zero, suc, ◌<◌}
use mathlib.Core.Path.{◌≡◌, refl, sym, subst}
use mathlib.Core.Logic.{inl, inr}
use mathlib.Core.Bool.{Bool, true, false, not, ◌&&◌, ◌||◌}
use mathlib.Core.Option.{Option, none, some}
use mathlib.Core.List.{List, [], ◌∷◌}
use native.Mathlib.Omega.{arith}
use nordvpn_linux.Prelude.Tests.{Eq, ◌==◌, if◌then◌else◌, Bool-cases}

module _ {ℓ} {A : Type ℓ} where
  abbrev pub length : List A → ℕ
  length [] = 0
  length (x ∷ xs) = suc (length xs)

  abbrev pub get_elem? : List A → ℕ → Option A
  get_elem? [] i = none
  get_elem? (x ∷ xs) zero = some x
  get_elem? (x ∷ xs) (suc i) = get_elem? xs i

  -- slices.ContainsFunc
  unfoldable pub contains_func : (A → Bool) → List A → Bool
  contains_func p [] = false
  contains_func p (x ∷ xs) = p x || contains_func p xs

  -- internal.Filter; slices.DeleteFunc with the test negated
  unfoldable pub filter : (A → Bool) → List A → List A
  filter p [] = []
  filter p (x ∷ xs) = let rest = filter p xs in if p x then x ∷ rest else rest

  -- the element at slices.IndexFunc, where that is not -1
  unfoldable pub find : (A → Bool) → List A → Option A
  find p [] = none
  find p (x ∷ xs) = let rest = find p xs in if p x then some x else rest

  -- every member passes the test
  abbrev pub All {κ} : (A → Type κ) → List A → Type κ
  All P [] = Unit
  All P (x ∷ xs) = P x × All P xs

  pub find_sound : (p : A → Bool) (xs : List A) (a : A) → find p xs ≡ some a → p a ≡ true
  unfolding find
  find_sound p [] a h = cc
  find_sound p (x ∷ xs) a h = ground (arith, find_sound p xs a)

  pub All-find {κ} :
      (P : A → Type κ) (p : A → Bool) (xs : List A) (a : A) → All P xs → find p xs ≡ some a → P a
  unfolding find
  All-find P p [] a h e = cc
  All-find P p (x ∷ xs) a h e = elim (Bool-cases (p x)) [
    | inl q ↦ let same : x ≡ a = ground arith in subst P same h.0
    | inr q ↦ All-find P p xs a h.1 (rw q at e)
  ]

  pub All-filter {κ} :
      (P : A → Type κ) (p : A → Bool) (xs : List A) → All P xs → All P (filter p xs)
  unfolding filter
  All-filter P p [] h = h
  All-filter P p (x ∷ xs) h = elim (Bool-cases (p x)) [
    | inl q ↦ rw q (h.0, All-filter P p xs h.1)
    | inr q ↦ rw q (All-filter P p xs h.1)
  ]

  -- what `filter` keeps passes the test
  pub filter-All : (p : A → Bool) (xs : List A) → All (λ x. p x ≡ true) (filter p xs)
  unfolding filter
  filter-All p [] = tt
  filter-All p (x ∷ xs) = elim (Bool-cases (p x)) [
    | inl q ↦ rw q (q, filter-All p xs)
    | inr q ↦ rw q (filter-All p xs)
  ]

  pub get_elem?-some : (xs : List A) (i : ℕ) → i < length xs → (x : A) × (get_elem? xs i ≡ some x)
  get_elem?-some [] i h = absurd (omega arith)
  get_elem?-some (x ∷ xs) zero h = (x, refl)
  get_elem?-some (x ∷ xs) (suc i) h = get_elem?-some xs i (omega arith)

  pub All-get_elem? {κ} :
      (P : A → Type κ) (xs : List A) (i : ℕ) (a : A) → All P xs → get_elem? xs i ≡ some a → P a
  All-get_elem? P [] i a h e = cc
  All-get_elem? P (x ∷ xs) zero a h e = let same : x ≡ a = ground arith in subst P same h.0
  All-get_elem? P (x ∷ xs) (suc i) a h e = All-get_elem? P xs i a h.1 e

module _ {ℓ} {A : Type ℓ} ⦃e : Eq A⦄ where
  -- the presence of a key in a map, `slices.Contains`
  unfoldable pub contains : List A → A → Bool
  contains [] a = false
  contains (x ∷ xs) a = x == a || contains xs a

  -- m[a] = true, on the keys of a map
  unfoldable pub insert : A → List A → List A
  unfolding contains
  insert a xs = if contains xs a then xs else a ∷ xs

  -- delete(m, a)
  unfoldable pub remove : A → List A → List A
  remove a [] = []
  remove a (x ∷ xs) = let rest = remove a xs in if x == a then rest else x ∷ rest

  pub beq_sym : (a b : A) → (a == b) ≡ (b == a)
  beq_sym a b = elim (Bool-cases (a == b)) [
    | inl p ↦ rw (p, (e.beq_iff b a).1 (sym ((e.beq_iff a b).0 p)))
    | inr p ↦ elim (Bool-cases (b == a)) [
      | inl q ↦ cc ((e.beq_iff a b).1 (sym ((e.beq_iff b a).0 q)))
      | inr q ↦ rw (p, q)
    ]
  ]

  pub contains-insert :
      (a b : A) (xs : List A) → contains (insert a xs) b ≡ (a == b || contains xs b)
  unfolding insert
  contains-insert a b xs = ground (arith, e.beq_iff a b)

  pub contains-remove :
      (a b : A) (xs : List A) → contains (remove a xs) b ≡ (not (a == b) && contains xs b)
  unfolding contains remove
  contains-remove a b [] = ground arith
  contains-remove a b (x ∷ xs) =
      ground (arith, contains-remove a b xs, e.beq_iff a b, e.beq_iff x a, e.beq_iff x b)

  -- no key stands twice
  abbrev pub Nodup : List A → Type 0
  Nodup [] = Unit
  Nodup (x ∷ xs) = (contains xs x ≡ false) × Nodup xs

  pub insert-Nodup : (a : A) (xs : List A) → Nodup xs → Nodup (insert a xs)
  unfolding insert
  insert-Nodup a xs h = elim (Bool-cases (contains xs a)) [ inl p ↦ rw p h | inr p ↦ rw p (p, h) ]

  pub remove-Nodup : (a : A) (xs : List A) → Nodup xs → Nodup (remove a xs)
  unfolding remove
  remove-Nodup a [] h = h
  remove-Nodup a (x ∷ xs) h = elim (Bool-cases (x == a)) [
    | inl p ↦ rw p (remove-Nodup a xs h.1)
    | inr p ↦ rw p (ground (arith, contains-remove a x xs), remove-Nodup a xs h.1)
  ]
