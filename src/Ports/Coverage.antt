-- ===== src/Ports/Coverage.antt =====
-- What the ranges cover, and that they are as few as can be.
use nordvpn_linux.Prelude.{
  ℤ, succ, succ_parts, ◌≤ℤ◌, eqb_ℤ_iff, List, [], ◌∷◌, ◌||◌, ◌≡◌, refl, ◌==◌, ◌∙◌, contains,
  Bool-cases, inl, inr, arith, int_eq,
}
use nordvpn_linux.Ports.{
  PortRange, insert_sorted, sort_ints, group, group_sorted, ports_to_port_ranges, in_range, covers,
}

contains-insert_sorted :
    (p q : ℤ) (ps : List ℤ) → contains (insert_sorted p ps) q ≡ (p == q || contains ps q)
unfolding insert_sorted contains
contains-insert_sorted p q [] = refl
contains-insert_sorted p q (r ∷ ps) = ground (arith, contains-insert_sorted p q ps)

pub contains-sort_ints : (ps : List ℤ) (q : ℤ) → contains (sort_ints ps) q ≡ contains ps q
unfolding sort_ints contains
contains-sort_ints [] q = refl
contains-sort_ints (p ∷ ps) q =
    ground (arith, contains-insert_sorted p q (sort_ints ps), contains-sort_ints ps q)

-- a range that grows by the next port
in_range-grow :
    (q previous port : ℤ) (r : PortRange)
    → r.max ≡ previous
    → r.min ≤ℤ previous
    → port ≡ succ previous
    → in_range q (record r { max = port }) ≡ (in_range q r || port == q)
unfolding in_range
in_range-grow q previous port r e h s = ground (arith, succ_parts previous)

le-succ : (a b c : ℤ) → a ≤ℤ b → c ≡ succ b → a ≤ℤ c
le-succ a b c h e = ground (arith, succ_parts b)

in_range-single : (q port : ℤ) → in_range q (record { min = port; max = port }) ≡ (port == q)
unfolding in_range
in_range-single q port = ground arith

covers-group :
    (q previous : ℤ) (r : PortRange) (ports : List ℤ)
    → r.max ≡ previous
    → r.min ≤ℤ previous
    → covers (group previous r ports) q ≡ (in_range q r || contains ports q)
unfolding covers group contains
covers-group q previous r [] e h = refl
covers-group q previous r (port ∷ ports) e h = elim (Bool-cases (port == succ previous)) [
  | inl s ↦
      let next : port ≡ succ previous = (eqb_ℤ_iff port (succ previous)).0 s in
      ground (
        arith,
        s,
        covers-group q port (record r { max = port }) ports refl
            (le-succ r.min previous port h next),
        in_range-grow q previous port r e h next,
      )
  | inr s ↦ ground (
    arith,
    s,
    covers-group q port (record { min = port; max = port }) ports refl (omega arith),
    in_range-single q port,
  )
]

covers-group_sorted : (ports : List ℤ) (q : ℤ) → covers (group_sorted ports) q ≡ contains ports q
unfolding group_sorted contains covers
covers-group_sorted [] q = refl
covers-group_sorted (port ∷ ports) q = ground (
  arith,
  covers-group q port (record { min = port; max = port }) ports refl (omega arith),
  in_range-single q port,
)

-- A port lies in one of the ranges exactly when it is in the list of ports.
pub covers-ports_to_port_ranges :
    (ports : List ℤ) (q : ℤ) → covers (ports_to_port_ranges ports) q ≡ contains ports q
unfolding ports_to_port_ranges
covers-ports_to_port_ranges ports q =
    covers-group_sorted (sort_ints ports) q ∙ contains-sort_ints ports q
