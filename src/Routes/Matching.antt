-- ===== src/Routes/Matching.antt =====
-- The system's tables hold the routes that the router remembers.
pub mod Leftover
use nordvpn_linux.Prelude.{
  ℕ, if◌then◌else◌, true, false, List, [], ◌∷◌, ◌++◌, map, ◌⊎◌, nat_eq, ◌==◌, ◌≡◌, refl, sym, ap,
  ◌∙◌, arith, Bool-cases, inl, inr,
}
use nordvpn_linux.Routes.{
  Route, Agent, Router, add_all, retabled, Change, add_route, flush_routes, disable_routes,
  enable_routes, change, add, enable, flush, disable,
}

-- the route without its table, unless that is the main one
unfoldable pub without_table : Route → Route
unfolding retabled
without_table route = retabled 1 route

-- Enabled, the installed routes are the remembered ones up to their tables, in the same order; disabled,
-- none is installed.
unfoldable pub IsMatching : Router → Type 0
unfolding without_table
IsMatching r =
    (r.is_enabled ≡ true → map without_table r.installed ≡ map without_table r.applied)
    × (r.is_enabled ≡ false → r.installed ≡ [])

map-append {ℓ} :
    {A B : Type ℓ} (f : A → B) (xs ys : List A) → map f (xs ++ ys) ≡ map f xs ++ map f ys
map-append f [] ys = refl
map-append f (x ∷ xs) ys = ap (λ l. f x ∷ l) (map-append f xs ys)

append_assoc {ℓ} : {A : Type ℓ} (xs ys zs : List A) → (xs ++ ys) ++ zs ≡ xs ++ (ys ++ zs)
append_assoc [] ys zs = refl
append_assoc (x ∷ xs) ys zs = ap (λ l. x ∷ l) (append_assoc xs ys zs)

without_table-retabled :
    (table_id : ℕ) (route : Route)
    → (table_id == 0) ≡ false
    → without_table (retabled table_id route) ≡ without_table route
unfolding without_table retabled
without_table-retabled table_id route h = ground arith

append_nil {ℓ} : {A : Type ℓ} (xs : List A) → xs ++ [] ≡ xs
append_nil [] = refl
append_nil (x ∷ xs) = ap (λ l. x ∷ l) (append_nil xs)

-- one more installed route, before the rest
moved_first :
    (table_id : ℕ) (route : Route) (routes installed : List Route)
    → (table_id == 0) ≡ false
    → map without_table (installed ++ retabled table_id route ∷ []) ++ map without_table routes
      ≡ map without_table installed ++ map without_table (route ∷ routes)
moved_first table_id route routes installed h =
    ap (λ l. l ++ map without_table routes)
      (map-append without_table installed (retabled table_id route ∷ []))
    ∙ append_assoc (map without_table installed) (without_table (retabled table_id route) ∷ [])
        (map without_table routes)
    ∙ ap (λ m. map without_table installed ++ m ∷ map without_table routes)
        (without_table-retabled table_id route h)

add_all-installed :
    (agent : Agent) (table_id : ℕ) (routes installed : List Route)
    → (table_id == 0) ≡ false
    → (add_all agent table_id routes installed).0 ≡ true
    → map without_table ((add_all agent table_id routes installed).1)
      ≡ map without_table installed ++ map without_table routes
unfolding add_all
add_all-installed agent table_id [] installed h e = sym (append_nil (map without_table installed))
add_all-installed agent table_id (route ∷ routes) installed h e =
    let moved = retabled table_id route in
    elim (Bool-cases (agent.add_fails moved)) [
      | inl p ↦ absurd (ground arith)
      | inr p ↦ rw p (
          add_all-installed agent table_id routes (installed ++ moved ∷ []) h (rw p at e)
          ∙ moved_first table_id route routes installed h)
    ]

appended :
    (xs ys : List Route) (route : Route)
    → map without_table xs ≡ map without_table ys
    → map without_table (xs ++ route ∷ []) ≡ map without_table (ys ++ route ∷ [])
appended xs ys route e =
    map-append without_table xs (route ∷ [])
    ∙ ap (λ l. l ++ without_table route ∷ []) e
    ∙ sym (map-append without_table ys (route ∷ []))

add-IsMatching :
    (agent : Agent) (route : Route) (r : Router)
    → IsMatching r
    → (add agent route r).0 ≡ true
    → IsMatching (add agent route r).1
unfolding add IsMatching
add-IsMatching agent route r h e = elim (Bool-cases r.is_enabled) [
  | inl on ↦
      let kept = appended r.installed r.applied route (h.0 on) in
      (λ p. ground (arith, kept), λ p. ground arith)
  | inr off ↦ let none_left = h.1 off in (λ p. ground arith, λ p. ground arith)
]

enable-IsMatching :
    (agent : Agent) (table_id : ℕ) (r : Router)
    → (table_id == 0) ≡ false
    → IsMatching r
    → (enable agent table_id r).0 ≡ true
    → IsMatching (enable agent table_id r).1
unfolding enable IsMatching
enable-IsMatching agent table_id r custom h e = elim (Bool-cases r.is_enabled) [
  | inl on ↦ rw on (λ p. h.0 on, λ p. ground arith)
  | inr off ↦
      let none_left : r.installed ≡ [] = h.1 off in
      let added : (add_all agent table_id r.applied r.installed).0 ≡ true = ground arith in
      let moved = add_all-installed agent table_id r.applied r.installed custom added in
      let fresh : map without_table r.installed ++ map without_table r.applied
          ≡ map without_table r.applied =
        ap (λ l. map without_table l ++ map without_table r.applied) none_left in
      rw off (λ p. moved ∙ fresh, λ p. ground arith)
]

-- the route in another table, unless it stands in the main one, which has number 0
abbrev pub moved_to : ℕ → Route → Route
moved_to table_id route =
    if route.table_id == 0 then route else record route { table_id = table_id }

retabled_lem : (table_id : ℕ) (route : Route) → retabled table_id route ≡ moved_to table_id route
unfolding retabled
retabled_lem table_id route = refl

appended_first :
    (xs : List Route) (x : Route) (ys : List Route) → (xs ++ x ∷ []) ++ ys ≡ xs ++ (x ∷ ys)
appended_first xs x ys = append_assoc xs (x ∷ []) ys

-- the loop of `Enable` that comes to its end adds every route, in the given table
add_all-succeeded :
    (agent : Agent) (table_id : ℕ) (routes installed : List Route)
    → (add_all agent table_id routes installed).0 ≡ true
    → (add_all agent table_id routes installed).1 ≡ installed ++ map (moved_to table_id) routes
unfolding add_all
add_all-succeeded agent table_id [] installed e = sym (append_nil installed)
add_all-succeeded agent table_id (route ∷ routes) installed e =
    let moved = retabled table_id route in
    elim (Bool-cases (agent.add_fails moved)) [
      | inl p ↦ absurd (ground arith)
      | inr p ↦ rw p (
          add_all-succeeded agent table_id routes (installed ++ moved ∷ []) (rw p at e)
          ∙ appended_first installed moved (map (moved_to table_id) routes)
          ∙ ap (λ m. installed ++ (m ∷ map (moved_to table_id) routes))
              (retabled_lem table_id route))
    ]

enable-installed :
    (agent : Agent) (table_id : ℕ) (r : Router)
    → IsMatching r
    → r.is_enabled ≡ false
    → (enable agent table_id r).0 ≡ true
    → (enable agent table_id r).1.installed ≡ map (moved_to table_id) r.applied
unfolding enable IsMatching
enable-installed agent table_id r h off e = rw off (
    add_all-succeeded agent table_id r.applied r.installed (rw off at e)
    ∙ ap (λ l. l ++ map (moved_to table_id) r.applied) (h.1 off))

same_table : {m n : ℕ} → enable_routes m ≡ enable_routes n → m ≡ n
same_table e = cc

-- The table that a change moves the routes to is not the main one, which has number 0.
abbrev pub IsCustom : Change → Type 0
IsCustom (enable_routes table_id) = (table_id == 0) ≡ false
IsCustom _ = Unit

-- A change that succeeds keeps the remembered and the installed routes in step, whatever the agent does:
-- enabled, the installed routes are the remembered ones in their order, each in the main table exactly if
-- it is remembered there; disabled, none is installed. `Enable` is taken to be given a table other than
-- the main one; where it succeeds on a disabled router, it installs the remembered routes in that table,
-- those of the main table in the main one. A change other than `Enable` that fails changes nothing.
pub change-IsMatching :
    (agent : Agent) (c : Change) (r : Router)
    → IsCustom c
    → IsMatching r
    → ((change agent c r).0 ≡ true → IsMatching (change agent c r).1)
      × ((table_id : ℕ)
          → c ≡ enable_routes table_id
          → r.is_enabled ≡ false
          → (change agent c r).0 ≡ true
          → (change agent c r).1.installed ≡ map (moved_to table_id) r.applied)
      × ((change agent c r).0 ≡ false
          → ((change agent c r).1 ≡ r) ⊎ (table_id : ℕ) × (c ≡ enable_routes table_id))
unfolding change add flush disable IsMatching
change-IsMatching agent (add_route route) r custom h =
    (add-IsMatching agent route r h, λ t e. cc, λ e. inl (ground arith))
change-IsMatching agent flush_routes r custom h =
    (λ e. (λ on. ground arith, λ off. ground (arith, h.1)), λ t e. cc, λ e. inl (ground arith))
change-IsMatching agent disable_routes r custom h =
    (λ e. (λ on. ground arith, λ off. ground (arith, h.1)), λ t e. cc, λ e. inl (ground arith))
change-IsMatching agent (enable_routes table_id) r custom h = (
  enable-IsMatching agent table_id r custom h,
  λ t e off done.
      enable-installed agent table_id r h off done
      ∙ ap (λ n. map (moved_to n) r.applied) (same_table e),
  λ e. inr (table_id, refl),
)
