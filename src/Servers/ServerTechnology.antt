-- ===== src/Servers/ServerTechnology.antt =====
-- `ServerTechnology` of core/models.go numbers what servers offer.
use nordvpn_linux.Prelude.{ℕ}

abbrev pub unknown : ℕ
unknown = 0

abbrev pub openvpn_udp : ℕ
openvpn_udp = 3

abbrev pub openvpn_tcp : ℕ
openvpn_tcp = 5

abbrev pub openvpn_udp_obfuscated : ℕ
openvpn_udp_obfuscated = 15

abbrev pub openvpn_tcp_obfuscated : ℕ
openvpn_tcp_obfuscated = 17

abbrev pub wireguard : ℕ
wireguard = 35
