-- ===== src/Tests/PortLists.antt =====
-- Examples of port ranges and of port requests.
use nordvpn_linux.Prelude.{
  succ, ℤ, pos, int_eq, true, false, List, [], ◌∷◌, contains, Nodup, ◌≡◌, refl, none, arith,
}
use nordvpn_linux.Ports.{ports_to_port_ranges, covers}
use nordvpn_linux.Ports.Coverage.{covers-ports_to_port_ranges}
use nordvpn_linux.Ports.Minimal.{AreSeparated, ports_to_port_ranges-AreSeparated}
use nordvpn_linux.Daemon.Allowlisting.{are_ports_valid, get_ports_in_a_range}
use nordvpn_linux.Daemon.Allowlisting.Effect.{are_ports_valid-large_end}

abbrev some_ports : List ℤ
some_ports = pos 22 ∷ pos 80 ∷ pos 23 ∷ []

some_ranges :
    ports_to_port_ranges some_ports
    ≡ record { min = pos 22; max = pos 23 } ∷ record { min = pos 80; max = pos 80 } ∷ []
unfolding ports_to_port_ranges succ
some_ranges = refl

some_ports-Nodup : Nodup some_ports
unfolding contains
some_ports-Nodup = (refl, (refl, (refl, tt)))

covers-ports_to_port_ranges_example :
    covers (ports_to_port_ranges some_ports) (pos 23) ≡ contains some_ports (pos 23)
covers-ports_to_port_ranges_example = covers-ports_to_port_ranges some_ports (pos 23)

ports_to_port_ranges-AreSeparated_example : AreSeparated (ports_to_port_ranges some_ports)
ports_to_port_ranges-AreSeparated_example =
    ports_to_port_ranges-AreSeparated some_ports some_ports-Nodup

are_ports_valid-large_end_example :
    (are_ports_valid (pos 65000) (pos 70000) [] false ≡ none)
    × (contains (get_ports_in_a_range (pos 65000) (pos 70000)) (pos 70000) ≡ true)
are_ports_valid-large_end_example =
    are_ports_valid-large_end (pos 65000) (pos 70000) [] (omega arith) (omega arith)
      (λ h. omega arith) (omega arith)
