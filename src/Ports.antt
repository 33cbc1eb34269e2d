-- ===== src/Ports.antt =====
-- Port lists and port ranges: daemon/firewall/iptables/iptables.go.
pub mod Coverage
pub mod Minimal
use nordvpn_linux.Prelude.{
  ℤ, succ, leb_ℤ, List, [], ◌∷◌, Bool, ◌&&◌, ◌==◌, int_eq, if◌then◌else◌, contains_func,
}

pub record PortRange : Type 0 where
  pub min : ℤ
  pub max : ℤ

insert_sorted : ℤ → List ℤ → List ℤ
insert_sorted p [] = p ∷ []
insert_sorted p (q ∷ qs) =
    let rest = insert_sorted p qs in if leb_ℤ p q then p ∷ q ∷ qs else q ∷ rest

-- sort.Ints
unfoldable pub sort_ints : List ℤ → List ℤ
unfolding insert_sorted
sort_ints [] = []
sort_ints (p ∷ ps) = insert_sorted p (sort_ints ps)

-- The loop over `ports[1:]`: `previous` is `ports[i]` and `r` the range that grows.
group : ℤ → PortRange → List ℤ → List PortRange
group previous r [] = r ∷ []
group previous r (port ∷ ports) =
    let grown = group port (record r { max = port }) ports in
    let fresh = r ∷ group port (record { min = port; max = port }) ports in
    if port == succ previous then grown else fresh

group_sorted : List ℤ → List PortRange
unfolding group
group_sorted [] = []
group_sorted (port ∷ ports) = group port (record { min = port; max = port }) ports

-- The empty list has no range: sorting it leaves it empty.
unfoldable pub ports_to_port_ranges : List ℤ → List PortRange
unfolding group_sorted sort_ints
ports_to_port_ranges ports = group_sorted (sort_ints ports)

unfoldable pub in_range : ℤ → PortRange → Bool
in_range p r = leb_ℤ r.min p && leb_ℤ p r.max

-- some range of the list holds the port
unfoldable pub covers : List PortRange → ℤ → Bool
unfolding in_range contains_func
covers rs p = contains_func (in_range p) rs
