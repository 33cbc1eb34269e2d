-- ===== src/Tests/Networking.antt =====
-- Examples of the networker and of its firewall.
use nordvpn_linux.Prelude.{
  filter, find, pos, true, false, [], ◌∷◌, none, some, contains, contains_func, ◌≡◌, refl, nat_eq,
  string_eq,
}
use nordvpn_linux.Prelude.Action
use nordvpn_linux.Config.{nordlynx, udp}
use nordvpn_linux.Config.Allowlist.{Allowlist}
use nordvpn_linux.Firewall.{Rule, Interface, forward, two_way, equal}
use nordvpn_linux.Firewall.OrderedRules
use nordvpn_linux.Firewall.OrderedRules.{rule_not_found, agent}
use nordvpn_linux.Firewall.Service.{Agent, Firewall, add_rules, enabling, change, enable}
use nordvpn_linux.Firewall.Service.Tracking.{IsTracking, change-IsTracking}
use nordvpn_linux.Networker.{
  World, Combined, ServerData, Machine, MachineMap, firewall, other, vpn_start, tolerating,
  is_rule_already_exists,
}
use nordvpn_linux.Networker.Rules.{
  drop_rule, block_traffic, allow_incoming, block_incoming, allow_fileshare, block_fileshare,
  rule_name, allow_incoming_rule, block_lan_rule, allow_fileshare_rule,
}
use nordvpn_linux.Networker.Rules.Peers.{
  block_incoming-allow_incoming, block_fileshare-allow_fileshare,
}
use nordvpn_linux.Networker.Rules.Stuck.{unset_kill_switch-rule_not_found}
use nordvpn_linux.Networker.Rules.Blocking.{tolerating-block_traffic}
use nordvpn_linux.Networker.Network
use nordvpn_linux.Networker.Tunnel
use nordvpn_linux.Networker.Tunnel.{or_last}
use nordvpn_linux.Networker.Operations.{
  connect, disconnect, refresh_vpn, set_kill_switch, unset_firewall, perform_all,
}
use nordvpn_linux.Networker.Operations.KillSwitch.{IsShielded}
use nordvpn_linux.Networker.Operations.Shielding.{perform_all-IsShielded}
use nordvpn_linux.Networker.Operations.Disconnecting.{disconnect-fw}
use nordvpn_linux.Networker.Operations.Starting.{succeeded, start-is_vpn_set}
use nordvpn_linux.Networker.Operations.Restarting.{restart-is_vpn_set}
use nordvpn_linux.Networker.Operations.Locking.{set_kill_switch-is_network_set}

abbrev card : Interface
card = record {
  index = pos 2;
  mtu = pos 1500;
  name = "eth0";
  hardware_addr = "02:42:ac";
  flags = 51;
}

abbrev willing : Agent
willing = record { add_fails = λ n r. false; delete_fails = λ n r. false }

abbrev stubborn : Agent
stubborn = record { add_fails = λ n r. true; delete_fails = λ n r. false }

abbrev drop : Rule
drop = drop_rule "drop" two_way (card ∷ [])

abbrev drop_forwarded : Rule
drop_forwarded = drop_rule "drop-fw" forward (card ∷ [])

abbrev idle : Firewall
idle = record { rules = drop ∷ []; enabled = false; installed = []; asked = 0 }

abbrev fresh : Firewall
fresh = record { rules = []; enabled = true; installed = []; asked = 0 }

abbrev pub world : World
world = record {
  agent = willing;
  answers = λ calls c. none;
  devices = λ calls. some (card ∷ []);
  default_interfaces = λ calls. "wlan0" ∷ [];
  has_tunnel = λ calls. true;
  vpn_is_active = λ calls. true;
  mesh_is_active = λ calls. false;
  vpn_ip = λ calls. some "10.5.0.2";
  mesh_ip = λ calls. none;
  mesh_is_vpn = λ calls. false;
  is_prefix = λ s. true;
  is_valid_address = λ s. true;
  is6 = λ s. false;
  in_mesh_subnet = λ s. false;
  single = λ s. s;
  nameservers = "103.86.96.100" ∷ [];
}

abbrev nowhere : ServerData
nowhere = record {
  ip = "";
  hostname = "";
  name = "";
  country = "";
  city = "";
  protocol = udp;
  virtual_location = false;
}

abbrev lithuania : ServerData
lithuania = record nowhere { ip = "5.6.7.8"; hostname = "lt7.nordvpn.com"; country = "Lithuania" }

abbrev pub no_allowlist : Allowlist
no_allowlist = record { ports = record { tcp = []; udp = [] }; subnets = [] }

abbrev pub start : Combined
start = record {
  fw = fresh;
  vpnet = some nordlynx;
  next_vpn = none;
  is_network_set = false;
  is_kill_switch_set = false;
  is_v6_traffic_allowed = false;
  is_vpn_set = false;
  is_meshnet_set = false;
  rules = [];
  cfg = record {
    machine = record {
      public_key = "self";
      hostname = "lion.nord";
      nickname = "";
      address = "100.64.0.1";
    };
    peers = [];
  };
  allowlist = no_allowlist;
  last_server = nowhere;
  last_creds = "";
  last_nameservers = [];
  last_private_key = "";
  ipv6_enabled = true;
  fwmark = 57841;
  lan_discovery = false;
  enable_local_traffic = false;
  interfaces = "eth0" ∷ [];
  calls = [];
}

abbrev connected : Combined
connected = record start { is_vpn_set = true; last_server = lithuania }

idle-IsTracking : IsTracking idle
unfolding contains
idle-IsTracking = record { distinct = (refl, tt); in_step = refl }

change-IsTracking_example : IsTracking (change willing enabling idle).1
unfolding change enable Action.reading Action.◌>>◌ Action.for_each
    nordvpn_linux.Firewall.Service.working_add
change-IsTracking_example =
    change-IsTracking willing enabling idle (λ n r. refl) (λ e. refl) idle-IsTracking

start-IsShielded : IsShielded start
start-IsShielded e = cc

perform_all-IsShielded_example : IsShielded (
    perform_all world
      (set_kill_switch no_allowlist
        ∷ connect "key" lithuania no_allowlist [] true
        ∷ refresh_vpn
        ∷ disconnect
        ∷ unset_firewall
        ∷ [])
      start)
perform_all-IsShielded_example =
    perform_all-IsShielded world
      (set_kill_switch no_allowlist
        ∷ connect "key" lithuania no_allowlist [] true
        ∷ refresh_vpn
        ∷ disconnect
        ∷ unset_firewall
        ∷ [])
      start start-IsShielded

abbrev locked : Combined
locked = record connected {
  is_kill_switch_set = true;
  is_network_set = true;
  fw = record fresh { rules = drop ∷ []; installed = drop ∷ [] };
}

disconnect-fw_example :
    let m = (Tunnel.disconnect world locked).1 in (m.fw ≡ locked.fw) × (m.is_kill_switch_set ≡ true)
disconnect-fw_example = disconnect-fw world locked refl

start-is_vpn_set_example :
    let r = Tunnel.start world "key" lithuania no_allowlist [] start in
    (r.1.is_vpn_set ≡ succeeded r.0) × (r.0 ≡ none → r.1.last_server ≡ or_last lithuania start)
start-is_vpn_set_example = start-is_vpn_set world "key" lithuania no_allowlist [] start refl

set_kill_switch-is_network_set_example :
    let r = Network.set_kill_switch world no_allowlist start in
    (r.1.is_kill_switch_set ≡ true) × (r.1.is_network_set ≡ true)
unfolding Network.set_kill_switch Action.◌>>◌ tolerating block_traffic
    nordvpn_linux.Networker.devices nordvpn_linux.Networker.on_firewall
    nordvpn_linux.Firewall.Service.add Action.for_each find
    nordvpn_linux.Firewall.Service.working_add Network.set_permitted contains_func filter contains
    nordvpn_linux.Networker.Rules.deny_dns
set_kill_switch-is_network_set_example =
    set_kill_switch-is_network_set world no_allowlist start refl

block_incoming-allow_incoming_example :
    (block_incoming world "peer" "100.64.0.2"
      (allow_incoming world "peer" "100.64.0.2" false start).1).1.rules
    ≡ []
unfolding contains allow_incoming Action.reading Action.◌>>◌ nordvpn_linux.Networker.on_firewall
    nordvpn_linux.Firewall.Service.add Action.for_each find
    nordvpn_linux.Firewall.Service.working_add block_incoming nordvpn_linux.Firewall.Service.delete
    nordvpn_linux.Firewall.Service.working_delete OrderedRules.delete_first
block_incoming-allow_incoming_example =
    block_incoming-allow_incoming world "peer" "100.64.0.2" false start refl refl refl

block_fileshare-allow_fileshare_example :
    (block_fileshare world "peer" "100.64.0.2"
      (allow_fileshare world "peer" "100.64.0.2" start).1).1.rules
    ≡ []
unfolding allow_fileshare Action.reading contains Action.◌>>◌ nordvpn_linux.Networker.on_firewall
    nordvpn_linux.Firewall.Service.add Action.for_each find
    nordvpn_linux.Firewall.Service.working_add block_fileshare nordvpn_linux.Firewall.Service.delete
    nordvpn_linux.Firewall.Service.working_delete
block_fileshare-allow_fileshare_example =
    block_fileshare-allow_fileshare world "peer" "100.64.0.2" start refl refl

-- what a block that failed halfway leaves
abbrev half_blocked : Combined
half_blocked = record start {
  fw = record fresh { rules = drop_forwarded ∷ []; installed = drop_forwarded ∷ [] };
}

tolerating-block_traffic_example :
    tolerating is_rule_already_exists (block_traffic world) half_blocked ≡ (none, half_blocked)
unfolding OrderedRules.get find equal nordvpn_linux.Firewall.equal_lists
    nordvpn_linux.Firewall.interfaces_are_equal
tolerating-block_traffic_example =
    tolerating-block_traffic world half_blocked (card ∷ []) drop_forwarded refl refl refl

-- the VPN does not start again
abbrev failing : World
failing = record world { answers = λ calls c. elim c [ vpn_start server ↦ some other | _ ↦ none ] }

restart-is_vpn_set_example :
    (Tunnel.restart failing "key" lithuania [] connected).1.is_vpn_set ≡ false
unfolding Tunnel.restart Action.reading Action.recovering Action.◌>>◌
restart-is_vpn_set_example =
    restart-is_vpn_set failing "key" lithuania [] connected nordlynx other refl refl

-- what a failure to unset the network leaves, after its first step
abbrev half_unset : Combined
half_unset = record start {
  is_kill_switch_set = true;
  is_network_set = true;
  fw = record fresh { rules = drop ∷ []; installed = drop ∷ [] };
}

unset_kill_switch-rule_not_found_example :
    Network.unset_kill_switch world half_unset ≡ (some (firewall rule_not_found), half_unset)
unfolding OrderedRules.get find
unset_kill_switch-rule_not_found_example =
    unset_kill_switch-rule_not_found world half_unset refl refl
