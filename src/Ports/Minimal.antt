-- ===== src/Ports/Minimal.antt =====
-- The ranges of distinct ports are as few as can be: no two of them touch.
use nordvpn_linux.Prelude.{
  ℤ, succ, succ_parts, ◌≤ℤ◌, leb_ℤ, List, [], ◌∷◌, false, ◌≡◌, refl, ◌==◌, ◌∙◌, contains,
  Bool-cases, inl, inr, Nodup, arith, int_eq,
}
use nordvpn_linux.Ports.{
  PortRange, insert_sorted, sort_ints, group, group_sorted, ports_to_port_ranges,
}
use nordvpn_linux.Ports.Coverage.{contains-sort_ints}

-- every port is followed by a larger one
abbrev Ascending : ℤ → List ℤ → Type 0
Ascending a [] = Unit
Ascending a (p ∷ ps) = (succ a ≤ℤ p) × Ascending p ps

abbrev IsAscending : List ℤ → Type 0
IsAscending [] = Unit
IsAscending (p ∷ ps) = Ascending p ps

-- there is at least one free port between a range and the next one
abbrev Gap : PortRange → List PortRange → Type 0
Gap r [] = Unit
Gap r (s ∷ rs) = succ (succ r.max) ≤ℤ s.min

abbrev pub AreSeparated : List PortRange → Type 0
AreSeparated [] = Unit
AreSeparated (r ∷ rs) = (r.min ≤ℤ r.max) × Gap r rs × AreSeparated rs

insert-Ascending :
    (a p : ℤ) (qs : List ℤ)
    → succ a ≤ℤ p
    → contains qs p ≡ false
    → Ascending a qs
    → Ascending a (insert_sorted p qs)
unfolding insert_sorted contains
insert-Ascending a p [] h n s = (h, tt)
insert-Ascending a p (q ∷ qs) h n s = elim (Bool-cases (leb_ℤ p q)) [
  | inl l ↦ rw l (h, (ground (arith, succ_parts p), s.1))
  | inr l ↦ rw l (s.0, insert-Ascending q p qs (ground (arith, succ_parts q)) (ground arith) s.1)
]

insert-IsAscending :
    (p : ℤ) (qs : List ℤ)
    → contains qs p ≡ false
    → IsAscending qs
    → IsAscending (insert_sorted p qs)
unfolding insert_sorted contains
insert-IsAscending p [] n s = tt
insert-IsAscending p (q ∷ qs) n s = elim (Bool-cases (leb_ℤ p q)) [
  | inl l ↦ rw l (ground (arith, succ_parts p), s)
  | inr l ↦ rw l (insert-Ascending q p qs (ground (arith, succ_parts q)) (ground arith) s)
]

sort_ints-IsAscending : (ps : List ℤ) → Nodup ps → IsAscending (sort_ints ps)
unfolding sort_ints
sort_ints-IsAscending [] h = tt
sort_ints-IsAscending (p ∷ ps) h =
    insert-IsAscending p (sort_ints ps) (contains-sort_ints ps p ∙ h.0)
      (sort_ints-IsAscending ps h.1)

-- the first range starts where the running one does
Gap-group :
    (before : PortRange) (previous : ℤ) (r : PortRange) (ports : List ℤ)
    → succ (succ before.max) ≤ℤ r.min
    → Gap before (group previous r ports)
unfolding group
Gap-group before previous r [] h = h
Gap-group before previous r (port ∷ ports) h = elim (Bool-cases (port == succ previous)) [
  | inl s ↦ rw s (Gap-group before port (record r { max = port }) ports h)
  | inr s ↦ rw s h
]

group-AreSeparated :
    (previous : ℤ) (r : PortRange) (ports : List ℤ)
    → r.max ≡ previous
    → r.min ≤ℤ previous
    → Ascending previous ports
    → AreSeparated (group previous r ports)
unfolding group
group-AreSeparated previous r [] e h s = (ground arith, tt, tt)
group-AreSeparated previous r (port ∷ ports) e h s = elim (Bool-cases (port == succ previous)) [
  | inl n ↦ rw n (
      group-AreSeparated port (record r { max = port }) ports refl
        (ground (arith, succ_parts previous)) s.1)
  | inr n ↦ rw n (
    ground arith,
    Gap-group r port (record { min = port; max = port }) ports
        (ground (arith, s.0, succ_parts (succ previous), succ_parts previous)),
    group-AreSeparated port (record { min = port; max = port }) ports refl (omega arith) s.1,
  )
]

-- For distinct ports every range is non-empty, the ranges ascend, and at least one port that is
-- not in the list lies between a range and the next.
pub ports_to_port_ranges-AreSeparated :
    (ports : List ℤ) → Nodup ports → AreSeparated (ports_to_port_ranges ports)
unfolding ports_to_port_ranges group_sorted
ports_to_port_ranges-AreSeparated ports d = go (sort_ints ports) (sort_ints-IsAscending ports d)
  where
    go : (ps : List ℤ) → IsAscending ps → AreSeparated (group_sorted ps)
    go [] s = tt
    go (p ∷ ps) s = group-AreSeparated p (record { min = p; max = p }) ps refl (omega arith) s
