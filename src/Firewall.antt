-- ===== src/Firewall.antt =====
-- Firewall rules and their equality: daemon/firewall/rule.go. Addresses and prefixes are texts.
pub mod OrderedRules
pub mod Service
use nordvpn_linux.Prelude.{
  ℕ, ℤ, int_eq, nat_eq, bool_eq, string_eq, Bool, true, false, ◌&&◌, ◌==◌, Eq, List, [], ◌∷◌,
  String, ◌≡◌, ◌↔◌, arith, ap, refl,
}

module _ {ℓ} {A : Type ℓ} ⦃e : Eq A⦄ where
  -- slices.Equal
  unfoldable pub equal_lists : List A → List A → Bool
  equal_lists [] [] = true
  equal_lists [] (y ∷ ys) = false
  equal_lists (x ∷ xs) [] = false
  equal_lists (x ∷ xs) (y ∷ ys) = x == y && equal_lists xs ys

  pub equal_lists_iff : (xs ys : List A) → (equal_lists xs ys ≡ true) ↔ (xs ≡ ys)
  unfolding equal_lists
  equal_lists_iff [] [] = (λ h. refl, λ h. refl)
  equal_lists_iff [] (y ∷ ys) = (λ h. cc, λ h. cc)
  equal_lists_iff (x ∷ xs) [] = (λ h. cc, λ h. cc)
  equal_lists_iff (x ∷ xs) (y ∷ ys) = (
    λ h. ground (arith, e.beq_iff x y, equal_lists_iff xs ys),
    λ h. ground (arith, e.beq_iff x y, equal_lists_iff xs ys),
  )

-- `net.Interface`; `flags` are the bits of the number
pub record Interface : Type 0 where
  pub index : ℤ
  pub mtu : ℤ
  pub name : String
  pub hardware_addr : String
  pub flags : ℕ

-- device.InterfacesAreEqual
unfoldable pub interfaces_are_equal : Interface → Interface → Bool
interfaces_are_equal a b =
    a.index == b.index
    && a.mtu == b.mtu
    && a.name == b.name
    && a.hardware_addr == b.hardware_addr
    && a.flags == b.flags

pub interfaces_are_equal_iff : (a b : Interface) → (interfaces_are_equal a b ≡ true) ↔ (a ≡ b)
unfolding interfaces_are_equal
interfaces_are_equal_iff a b = (
  λ h. ground (
    arith,
    int_eq.beq_iff a.index b.index,
    int_eq.beq_iff a.mtu b.mtu,
    string_eq.beq_iff a.name b.name,
    string_eq.beq_iff a.hardware_addr b.hardware_addr,
  ),
  λ h. ground (
    arith,
    int_eq.beq_iff a.index b.index,
    int_eq.beq_iff a.mtu b.mtu,
    string_eq.beq_iff a.name b.name,
    string_eq.beq_iff a.hardware_addr b.hardware_addr,
  ),
)

instance abbrev pub interface_eq : Eq Interface
interface_eq = record { beq = interfaces_are_equal; beq_iff = interfaces_are_equal_iff }

pub data PortsDirection : Type 0 where
  source_and_destination destination source : PortsDirection

pub data ConnectionState : Type 0 where
  established related new : ConnectionState

pub data Direction : Type 0 where
  inbound outbound two_way forward : Direction

-- the number that Go's `iota` gives
abbrev pub ports_direction_number : PortsDirection → ℕ
ports_direction_number source_and_destination = 0
ports_direction_number destination = 1
ports_direction_number source = 2

abbrev pub connection_state_number : ConnectionState → ℕ
connection_state_number established = 0
connection_state_number related = 1
connection_state_number new = 2

abbrev pub direction_number : Direction → ℕ
direction_number inbound = 0
direction_number outbound = 1
direction_number two_way = 2
direction_number forward = 3

abbrev connection_state_beq : ConnectionState → ConnectionState → Bool
connection_state_beq a b = connection_state_number a == connection_state_number b

pub connection_state_iff : (a b : ConnectionState) → (connection_state_beq a b ≡ true) ↔ (a ≡ b)
connection_state_iff a b = (λ h. ground arith, λ h. ground arith)

instance abbrev pub connection_state_eq : Eq ConnectionState
connection_state_eq = record { beq = connection_state_beq; beq_iff = connection_state_iff }

pub record ConnectionStates : Type 0 where
  pub src_addr : String
  pub states : List ConnectionState

pub record Rule : Type 0 where
  pub name : String
  pub interfaces : List Interface
  pub remote_networks : List String
  pub local_networks : List String
  pub ports : List ℤ
  pub ports_direction : PortsDirection
  pub protocols : List String
  pub direction : Direction
  pub connection_states : ConnectionStates
  pub marks : List ℕ
  pub allow : Bool
  pub ipv6_only : Bool
  pub icmpv6_types : List ℤ
  pub hop_limit : ℕ
  pub source_ports : List ℤ
  pub destination_ports : List ℤ
  pub comment : String

-- `Rule.Equal`
unfoldable pub equal : Rule → Rule → Bool
equal r s =
    r.name == s.name
    && equal_lists r.interfaces s.interfaces
    && equal_lists r.remote_networks s.remote_networks
    && equal_lists r.local_networks s.local_networks
    && equal_lists r.ports s.ports
    && ports_direction_number r.ports_direction == ports_direction_number s.ports_direction
    && equal_lists r.protocols s.protocols
    && direction_number r.direction == direction_number s.direction
    && r.connection_states.src_addr == s.connection_states.src_addr
    && equal_lists r.connection_states.states s.connection_states.states
    && equal_lists r.marks s.marks
    && r.allow == s.allow
    && r.ipv6_only == s.ipv6_only
    && equal_lists r.icmpv6_types s.icmpv6_types
    && r.hop_limit == s.hop_limit
    && equal_lists r.source_ports s.source_ports
    && equal_lists r.destination_ports s.destination_ports
    && r.comment == s.comment

equal-name : (r s : Rule) → equal r s ≡ true → r.name ≡ s.name
unfolding equal
equal-name r s h = ground (arith, string_eq.beq_iff r.name s.name)

pub equal_refl : (r : Rule) → equal r r ≡ true
unfolding equal
equal_refl r = ground (
  arith,
  string_eq.beq_iff r.name r.name,
  equal_lists_iff r.interfaces r.interfaces,
  equal_lists_iff r.remote_networks r.remote_networks,
  equal_lists_iff r.local_networks r.local_networks,
  equal_lists_iff r.ports r.ports,
  equal_lists_iff r.protocols r.protocols,
  string_eq.beq_iff r.connection_states.src_addr r.connection_states.src_addr,
  equal_lists_iff r.connection_states.states r.connection_states.states,
  equal_lists_iff r.marks r.marks,
  equal_lists_iff r.icmpv6_types r.icmpv6_types,
  equal_lists_iff r.source_ports r.source_ports,
  equal_lists_iff r.destination_ports r.destination_ports,
  string_eq.beq_iff r.comment r.comment,
)
