-- ===== src/Networker/Rules/Blocking.antt =====
-- The rules that block all traffic.
use nordvpn_linux.Prelude.{string_eq, true, List, none, some, ◌≡◌}
use nordvpn_linux.Prelude.Action.{fail, reading, catching, succeed, for_each, ◌>>◌}
use nordvpn_linux.Firewall.{Rule, Interface, equal, forward}
use nordvpn_linux.Firewall.OrderedRules
use nordvpn_linux.Firewall.OrderedRules.{rule_already_exists}
use nordvpn_linux.Firewall.Service
use nordvpn_linux.Networker.{
  World, Combined, devices, on_firewall, tolerating, is_rule_already_exists,
}
use nordvpn_linux.Networker.Rules.{block_traffic, add_rules, drop_rule}

-- Where the firewall remembers an equal rule that drops what is forwarded, blocking the traffic as the
-- networker does it counts as done, and adds nothing: neither here nor in the system does a rule appear
-- that drops what comes in and goes out.
pub tolerating-block_traffic :
    (w : World) (n : Combined) (ifaces : List Interface) (r : Rule)
    → w.devices n.calls ≡ some ifaces
    → OrderedRules.get "drop-fw" n.fw.rules ≡ some r
    → equal r (drop_rule "drop-fw" forward ifaces) ≡ true
    → tolerating is_rule_already_exists (block_traffic w) n ≡ (none, n)
unfolding tolerating block_traffic devices add_rules on_firewall Service.add Service.add_rule
    for_each fail reading catching succeed ◌>>◌
tolerating-block_traffic w n ifaces r listed found same = simp (listed, found, same)
