-- ===== src/Networker/Rules/Stuck.antt =====
-- A kill switch that cannot be turned off.
use nordvpn_linux.Prelude.{string_eq, false, not, none, some, ◌≡◌, sym, subst}
use nordvpn_linux.Prelude.Action.{fail, reading, update, for_each, ◌>>◌, when}
use nordvpn_linux.Firewall.OrderedRules
use nordvpn_linux.Firewall.OrderedRules.{rule_not_found}
use nordvpn_linux.Firewall.Service
use nordvpn_linux.Networker.{World, Combined, firewall, on_firewall}
use nordvpn_linux.Networker.Rules.{delete_rules}
use nordvpn_linux.Networker.Network.{unset_kill_switch, unset_network, unset_rules}

unset_network-rule_not_found :
    (w : World) (n : Combined)
    → OrderedRules.get "api_allowlist" n.fw.rules ≡ none
    → unset_network w n ≡ (some (firewall rule_not_found), n)
unfolding unset_network unset_rules delete_rules on_firewall Service.delete Service.delete_rule
    for_each fail reading ◌>>◌
unset_network-rule_not_found w n missing = simp (missing)

-- While no VPN is set and the firewall does not remember the rule that allows the API, the kill switch
-- cannot be turned off: the method fails at that rule and changes nothing, however often it is called.
pub unset_kill_switch-rule_not_found :
    (w : World) (n : Combined)
    → n.is_vpn_set ≡ false
    → OrderedRules.get "api_allowlist" n.fw.rules ≡ none
    → unset_kill_switch w n ≡ (some (firewall rule_not_found), n)
unfolding unset_kill_switch reading ◌>>◌
unset_kill_switch-rule_not_found w n down missing =
    let release : Combined → Combined = λ n. record n { is_kill_switch_set = false } in
    subst
      (λ b.
        (when (not b) (unset_network w) >> update release) n ≡ (some (firewall rule_not_found), n))
      (sym down) (simp (unset_network-rule_not_found w n missing))
