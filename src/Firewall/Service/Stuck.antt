-- ===== src/Firewall/Service/Stuck.antt =====
-- What a failed `Enable` of the firewall leaves.
use nordvpn_linux.Firewall.Service.{Firewall}
