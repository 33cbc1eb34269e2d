-- ===== src/Config/Allowlist.antt =====
-- Allowlists: config/allowlistlist.go. A Go map to `true` is the list of its keys; the order in which
-- Go ranges over a map is not specified, and nothing below depends on it.
pub mod Laws
use nordvpn_linux.Prelude.{
  ℤ, Bool, true, false, List, [], ◌∷◌, String, insert, remove, int_eq, string_eq, if◌then◌else◌, Eq,
}

pub record Ports : Type 0 where
  pub tcp : List ℤ
  pub udp : List ℤ

pub record Allowlist : Type 0 where
  pub ports : Ports
  pub subnets : List String

-- for _, k := range keys { m[k] = true }
unfoldable pub add_all {ℓ} : {A : Type ℓ} ⦃e : Eq A⦄ → List A → List A → List A
add_all [] m = m
add_all (k ∷ ks) m = add_all ks (insert k m)

-- for _, k := range keys { delete(m, k) }
unfoldable pub remove_all {ℓ} : {A : Type ℓ} ⦃e : Eq A⦄ → List A → List A → List A
remove_all [] m = m
remove_all (k ∷ ks) m = remove_all ks (remove k m)

unfoldable pub new_allowlist : List ℤ → List ℤ → List String → Allowlist
unfolding add_all
new_allowlist udp_ports tcp_ports subnets = record {
  ports = record { tcp = add_all tcp_ports []; udp = add_all udp_ports [] };
  subnets = add_all subnets [];
}

unfoldable pub update_udp_ports : List ℤ → Bool → Allowlist → Allowlist
unfolding add_all remove_all
update_udp_ports ports removing a = record a {
  ports = record (a.ports) {
    udp = if removing then remove_all ports a.ports.udp else add_all ports a.ports.udp;
  };
}

unfoldable pub update_tcp_ports : List ℤ → Bool → Allowlist → Allowlist
unfolding add_all remove_all
update_tcp_ports ports removing a = record a {
  ports = record (a.ports) {
    tcp = if removing then remove_all ports a.ports.tcp else add_all ports a.ports.tcp;
  };
}

unfoldable pub update_subnets : String → Bool → Allowlist → Allowlist
update_subnets subnet removing a = record a {
  subnets = if removing then remove subnet a.subnets else insert subnet a.subnets;
}
