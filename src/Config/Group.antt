-- ===== src/Config/Group.antt =====
-- Server groups: config/group.proto, config/server_groups.go.
use nordvpn_linux.Prelude.{ℕ}

-- the identifiers that the servers' groups carry
abbrev pub ServerGroup : Type 0
ServerGroup = ℕ

abbrev pub undefined : ServerGroup
undefined = 0

abbrev pub double_vpn : ServerGroup
double_vpn = 1

abbrev pub onion_over_vpn : ServerGroup
onion_over_vpn = 3

abbrev pub dedicated_ip : ServerGroup
dedicated_ip = 9

abbrev pub standard_vpn_servers : ServerGroup
standard_vpn_servers = 11

abbrev pub p2p : ServerGroup
p2p = 15

abbrev pub obfuscated : ServerGroup
obfuscated = 17

abbrev pub europe : ServerGroup
europe = 19

abbrev pub the_americas : ServerGroup
the_americas = 21

abbrev pub asia_pacific : ServerGroup
asia_pacific = 23

abbrev pub africa_middle_east_india : ServerGroup
africa_middle_east_india = 25
