-- ===== src/Daemon/Allowlisting/Effect.antt =====
-- What a change of the allowlist does to its ports and subnets.
use nordvpn_linux.Prelude.{
  pos, ℕ, zero, suc, ℤ, succ, succ_parts, pos_part, neg_part, ◌≤ℤ◌, leb_ℤ, ltb, distance, int_eq,
  string_eq, bool_eq, Bool, true, false, not, ◌&&◌, ◌||◌, ◌==◌, if◌then◌else◌, List, String,
  contains, contains-insert, contains-remove, none, ◌≡◌, refl, ap, subst, arith, ◌∙◌, ◌+◌,
}
use nordvpn_linux.Config.{Config}
use nordvpn_linux.Config.Allowlist.{Allowlist, update_udp_ports, update_tcp_ports, update_subnets}
use nordvpn_linux.Config.Allowlist.Laws.{contains-add_all, contains-remove_all}
use nordvpn_linux.Daemon.Subnets.{AddressParser}
use nordvpn_linux.Daemon.Allowlisting.{
  count_up, get_ports_in_a_range, are_ports_valid, NewAllowlist, valid, invalid, subnet, ports,
  get_new_allowlist, with_udp, with_tcp, and_then_tcp, is_subnet_valid, contains_private_network,
  allowlist_min_port, allowlist_max_port,
}

contains-count_up :
    (n : ℕ) (first p : ℤ)
    → contains (count_up n first) p
      ≡ (leb_ℤ first p && ltb (pos_part p + neg_part first) (pos_part first + neg_part p + n))
unfolding count_up contains
contains-count_up zero first p = ground arith
contains-count_up (suc n) first p =
    ground (arith, contains-count_up n (succ first) p, succ_parts first)

-- the ports of a request: the first one, and those up to the last one
abbrev pub is_requested : ℤ → ℤ → ℤ → Bool
is_requested start stop p = start == p || leb_ℤ start p && leb_ℤ p stop

contains-get_ports_in_a_range :
    (start stop p : ℤ) → contains (get_ports_in_a_range start stop) p ≡ is_requested start stop p
unfolding get_ports_in_a_range contains
contains-get_ports_in_a_range start stop p =
    ground (arith, contains-count_up (distance start stop) (succ start) p, succ_parts start)

-- membership after an addition or a removal of what `requested` says
abbrev pub changed : Bool → Bool → Bool → Bool → Bool
changed flagged removing requested old =
    if flagged then (if removing then not requested && old else requested || old) else old

contains-update_udp_ports :
    (start stop p : ℤ) (removing : Bool) (a : Allowlist)
    → contains ((update_udp_ports (get_ports_in_a_range start stop) removing a).ports.udp) p
      ≡ changed true removing (is_requested start stop p) (contains a.ports.udp p)
unfolding update_udp_ports
contains-update_udp_ports start stop p false a =
    contains-add_all (get_ports_in_a_range start stop) a.ports.udp p
    ∙ ap (λ b. b || contains a.ports.udp p) (contains-get_ports_in_a_range start stop p)
contains-update_udp_ports start stop p true a =
    contains-remove_all (get_ports_in_a_range start stop) a.ports.udp p
    ∙ ap (λ b. not b && contains a.ports.udp p) (contains-get_ports_in_a_range start stop p)

contains-update_tcp_ports :
    (start stop p : ℤ) (removing : Bool) (a : Allowlist)
    → contains ((update_tcp_ports (get_ports_in_a_range start stop) removing a).ports.tcp) p
      ≡ changed true removing (is_requested start stop p) (contains a.ports.tcp p)
unfolding update_tcp_ports
contains-update_tcp_ports start stop p false a =
    contains-add_all (get_ports_in_a_range start stop) a.ports.tcp p
    ∙ ap (λ b. b || contains a.ports.tcp p) (contains-get_ports_in_a_range start stop p)
contains-update_tcp_ports start stop p true a =
    contains-remove_all (get_ports_in_a_range start stop) a.ports.tcp p
    ∙ ap (λ b. not b && contains a.ports.tcp p) (contains-get_ports_in_a_range start stop p)

with_udp-valid :
    (udp : Bool) (start stop : ℤ) (removing : Bool) (a b : Allowlist)
    → with_udp udp start stop removing a ≡ valid b
    → (if udp then update_udp_ports (get_ports_in_a_range start stop) removing a else a) ≡ b
unfolding with_udp
with_udp-valid udp start stop removing a b e = ground arith

with_tcp-valid :
    (tcp : Bool) (start stop : ℤ) (removing : Bool) (a b : Allowlist)
    → with_tcp tcp start stop removing a ≡ valid b
    → (if tcp then update_tcp_ports (get_ports_in_a_range start stop) removing a else a) ≡ b
unfolding with_tcp
with_tcp-valid tcp start stop removing a b e = ground arith

and_then_tcp-valid :
    (tcp : Bool) (start stop : ℤ) (removing : Bool) (m : NewAllowlist) (b : Allowlist)
    → and_then_tcp tcp start stop removing m ≡ valid b
    → (a : Allowlist) × (m ≡ valid a)
      × ((if tcp then update_tcp_ports (get_ports_in_a_range start stop) removing a else a) ≡ b)
unfolding and_then_tcp
and_then_tcp-valid tcp start stop removing (invalid code) b e = cc
and_then_tcp-valid tcp start stop removing (valid a) b e =
    (a, refl, with_tcp-valid tcp start stop removing a b e)

-- the allowlist after both `if` statements, port by port
updated-changed :
    (udp tcp removing : Bool) (start stop p : ℤ) (a : Allowlist)
    → let requested = get_ports_in_a_range start stop in
      let m = if udp then update_udp_ports requested removing a else a in
      let b = if tcp then update_tcp_ports requested removing m else m in
      (contains b.ports.udp p
        ≡ changed udp removing (is_requested start stop p) (contains a.ports.udp p))
      × (contains b.ports.tcp p
          ≡ changed tcp removing (is_requested start stop p) (contains a.ports.tcp p))
      × (b.subnets ≡ a.subnets)
unfolding update_udp_ports update_tcp_ports
updated-changed false false removing start stop p a = (refl, refl, refl)
updated-changed false true removing start stop p a =
    (refl, contains-update_tcp_ports start stop p removing a, refl)
updated-changed true false removing start stop p a =
    (contains-update_udp_ports start stop p removing a, refl, refl)
updated-changed true true removing start stop p a = (
  contains-update_udp_ports start stop p removing a,
  contains-update_tcp_ports start stop p removing a,
  refl,
)

-- A request for ports that is accepted changes the membership of exactly the requested ports, in the
-- lists that its flags name: it adds them, or removes them. It changes no other port and no subnet.
pub get_new_allowlist-ports :
    (parser : AddressParser) (udp tcp removing : Bool) (start stop p : ℤ) (c : Config)
    (b : Allowlist)
    → get_new_allowlist parser (ports udp tcp start stop) removing c ≡ valid b
    → let old = c.auto_connect_data.allowlist in
      (contains b.ports.udp p
        ≡ changed udp removing (is_requested start stop p) (contains old.ports.udp p))
      × (contains b.ports.tcp p
          ≡ changed tcp removing (is_requested start stop p) (contains old.ports.tcp p))
      × (b.subnets ≡ old.subnets)
unfolding get_new_allowlist
get_new_allowlist-ports parser udp tcp removing start stop p c b e =
    let old = c.auto_connect_data.allowlist in
    let requested = get_ports_in_a_range start stop in
    let (m, first, second) =
      and_then_tcp-valid tcp start stop removing (with_udp udp start stop removing old) b e in
    let same = with_udp-valid udp start stop removing old m first in
    subst
      (λ (b : Allowlist).
        (contains b.ports.udp p
          ≡ changed udp removing (is_requested start stop p) (contains old.ports.udp p))
        × (contains b.ports.tcp p
            ≡ changed tcp removing (is_requested start stop p) (contains old.ports.tcp p))
        × (b.subnets ≡ old.subnets))
      (ap (λ m. if tcp then update_tcp_ports requested removing m else m) same ∙ second)
      (updated-changed udp tcp removing start stop p old)

-- A request for a subnet that is accepted adds or removes that subnet alone, in a list where it was
-- absent or present respectively. With LAN discovery on, the subnet is not a local one.
pub get_new_allowlist-subnet :
    (parser : AddressParser) (s t : String) (removing : Bool) (c : Config) (b : Allowlist)
    → get_new_allowlist parser (subnet s) removing c ≡ valid b
    → let old = c.auto_connect_data.allowlist in
      (contains b.subnets t ≡ changed true removing (s == t) (contains old.subnets t))
      × (contains old.subnets s ≡ removing)
      × (parser.is_cidr s ≡ true)
      × (b.ports ≡ old.ports)
      × (c.lan_discovery ≡ true → contains_private_network parser s ≡ false)
unfolding get_new_allowlist update_subnets is_subnet_valid
get_new_allowlist-subnet parser s t removing c b e =
    let old = c.auto_connect_data.allowlist in
    let insertion = contains-insert s t old.subnets in
    let removal = contains-remove s t old.subnets in
    (ground arith, ground arith, ground arith, ground arith, ground arith)

-- The second test of the ports compares `portRangeStart` with the bounds once more, and `portRangeEnd`
-- only with `portRangeStart`. So a range with a valid first port and any last port above 65535 and below
-- the largest int64 is accepted for an addition, and that last port is among the ports added.
pub are_ports_valid-large_end :
    (start stop : ℤ) (current : List ℤ)
    → allowlist_min_port ≤ℤ start
    → start ≤ℤ allowlist_max_port
    → ¬ (stop ≤ℤ allowlist_max_port)
    → stop ≤ℤ pos 9223372036854775806
    → (are_ports_valid start stop current false ≡ none)
      × (contains (get_ports_in_a_range start stop) stop ≡ true)
unfolding are_ports_valid
are_ports_valid-large_end start stop current low high large countable =
    (ground arith, contains-get_ports_in_a_range start stop stop ∙ ground arith)
