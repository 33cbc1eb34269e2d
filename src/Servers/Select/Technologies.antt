-- ===== src/Servers/Select/Technologies.antt =====
-- The technology that the API is asked for, against the tests of the servers.
use nordvpn_linux.Prelude.{Bool, true, false, ◌≡◌, ◌≢◌, refl, arith}
use nordvpn_linux.Config.{
  Technology, unknown_technology, openvpn, nordlynx, Protocol, unknown_protocol, udp, tcp,
}
use nordvpn_linux.Servers.{Server, is_connectable_via, is_connectable_with_protocol, is_obfuscated}
use nordvpn_linux.Servers.ServerTechnology
use nordvpn_linux.Servers.Select.{tech_to_server_tech}

-- Where there is a technology to ask the API for: a server that serves it is connectable with the protocol
-- of the settings. With OpenVPN and obfuscation on, every obfuscated server serves it. With obfuscation
-- off, every server that is connectable with the protocol and serves neither of the obfuscated
-- technologies serves it.
pub tech_to_server_tech-connectable :
    (technology : Technology) (protocol : Protocol) (obfuscated : Bool) (s : Server)
    → tech_to_server_tech technology protocol obfuscated ≢ ServerTechnology.unknown
    → let asked = tech_to_server_tech technology protocol obfuscated in
      (is_connectable_via asked s ≡ true
        → is_connectable_with_protocol technology protocol s ≡ true)
      × (technology ≡ openvpn
          → obfuscated ≡ true
          → is_obfuscated s ≡ true
          → is_connectable_via asked s ≡ true)
      × (obfuscated ≡ false
          → is_connectable_via ServerTechnology.openvpn_udp_obfuscated s ≡ false
          → is_connectable_via ServerTechnology.openvpn_tcp_obfuscated s ≡ false
          → is_connectable_with_protocol technology protocol s ≡ true
          → is_connectable_via asked s ≡ true)
unfolding tech_to_server_tech is_connectable_with_protocol is_obfuscated
tech_to_server_tech-connectable unknown_technology protocol obfuscated s known = absurd (known refl)
tech_to_server_tech-connectable nordlynx protocol obfuscated s known =
    (λ via. via, λ t o e. cc, λ o u t via. via)
tech_to_server_tech-connectable openvpn unknown_protocol obfuscated s known = absurd (known refl)
tech_to_server_tech-connectable openvpn udp obfuscated s known =
    (λ via. ground arith, λ t o e. ground arith, λ o u t e. ground arith)
tech_to_server_tech-connectable openvpn tcp obfuscated s known =
    (λ via. ground arith, λ t o e. ground arith, λ o u t e. ground arith)
