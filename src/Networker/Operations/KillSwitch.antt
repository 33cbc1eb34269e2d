-- ===== src/Networker/Operations/KillSwitch.antt =====
-- The kill switch implies the blocked network.
use nordvpn_linux.Prelude.{
  Bool, true, false, not, ◌&&◌, List, String, Option, none, some, if◌then◌else◌, ◌≡◌, refl, sym,
  subst,
}
use nordvpn_linux.Prelude.Action.{
  succeed, update, reading, ignoring, ◌>>◌, when, Ensures, Ensures-update, Ensures->>,
  Keeps-ensured, Keeps-both, Keeps-update, Keeps-if, Keeps-succeed, Keeps->>, Keeps-reading_all,
  keeps_rules,
}
use nordvpn_linux.Config.{Technology}
use nordvpn_linux.Config.Allowlist.{Allowlist}
use nordvpn_linux.Networker.{Call, MachineMap, call, World, Combined, Method, ServerData}
use nordvpn_linux.Networker.Network.{
  set_network, set_rules, unset_rules, unset_network, unset_firewall, set_kill_switch,
  unset_kill_switch,
}
use nordvpn_linux.Networker.Network.{reset_allowlist}
use nordvpn_linux.Networker.Mesh.{refresh}
use nordvpn_linux.Networker.Tunnel.{deny_ipv6}
use nordvpn_linux.Networker.Rules.{stop_allowed_ipv6_traffic}
use nordvpn_linux.Networker.Tunnel.{
  release_network, switch_to_next_vpn, configure_network, failure_recover, start, restart, connect,
  stop, disconnect, set_vpn,
}
use nordvpn_linux.Networker.Operations.Flags.{
  Kept, call-Kept, tolerating-Kept, reset_allowlist-Kept, set_rules-Kept, unset_rules-Kept,
  stop_allowed_ipv6_traffic-Kept, refresh-Kept, deny_ipv6-Kept,
}

abbrev pub Implies : Bool → Bool → Type 0
Implies kill_switch network = kill_switch ≡ true → network ≡ true

abbrev pub IsShielded : Combined → Type 0
IsShielded n = Implies n.is_kill_switch_set n.is_network_set

-- a predicate of the first two flags
abbrev pub FirstTwo : (Bool → Bool → Type 0) → Bool → Bool → Bool → Type 0
FirstTwo Q k b v = Q k b

abbrev IsOff : Bool → Bool → Type 0
IsOff kill_switch network = kill_switch ≡ false

abbrev on : Combined → Combined
on n = record n { is_network_set = true }

abbrev off : Combined → Combined
off n = record n { is_network_set = false }

unset_network-IsOff : (w : World) → Kept (FirstTwo IsOff) (unset_network w)
unfolding unset_network
unset_network-IsOff w =
    Keeps->> (unset_rules w) (update off) (unset_rules-Kept (FirstTwo IsOff) w)
      (Keeps-update off (λ n h. h))

pub set_network-Ensures :
    (w : World) (a : Allowlist)
    → Ensures (λ (n : Combined). n.is_network_set ≡ true) (set_network w a)
unfolding set_network
set_network-Ensures w a = Ensures->> (set_rules w a) (update on) (Ensures-update on (λ n. refl))

-- A predicate of the two flags that holds wherever the network is blocked, and wherever the kill switch
-- is off.
module _ (Q : Bool → Bool → Type 0) (blocked : (k : Bool) → Q k true)
    (unlocked : (b : Bool) → Q false b) (w : World) where
  abbrev pub Safe : Method → Type 0
  Safe m = Kept (FirstTwo Q) m

  pub call-Safe : (c : Call) → Safe (call w c)
  call-Safe c = call-Kept (FirstTwo Q) w c

  pub reset_allowlist-Safe : Safe (reset_allowlist w)
  reset_allowlist-Safe = reset_allowlist-Kept (FirstTwo Q) w

  pub refresh-Safe : (cfg : MachineMap) → Safe (refresh w cfg)
  refresh-Safe cfg = refresh-Kept (FirstTwo Q) w cfg

  pub deny_ipv6-Safe : Safe (deny_ipv6 w)
  deny_ipv6-Safe = deny_ipv6-Kept (FirstTwo Q) w

  pub stop_allowed_ipv6_traffic-Safe : Safe (stop_allowed_ipv6_traffic w)
  stop_allowed_ipv6_traffic-Safe = stop_allowed_ipv6_traffic-Kept (FirstTwo Q) w

  pub set_network-Safe : (a : Allowlist) → Safe (set_network w a)
  unfolding set_network
  set_network-Safe a =
      Keeps->> (set_rules w a) (update on) (set_rules-Kept (FirstTwo Q) w a)
        (Keeps-update on (λ n h. blocked n.is_kill_switch_set))

  pub set_kill_switch-Safe : (a : Allowlist) → Safe (set_kill_switch w a)
  unfolding set_kill_switch ◌>>◌
  set_kill_switch-Safe a =
      Keeps-ensured {R = λ n. n.is_network_set ≡ true} (reading network) (update lock)
        (Keeps-reading_all network (λ n.
          Keeps-if (not n.is_network_set) (set_network w a) succeed (set_network-Safe a)
            Keeps-succeed))
        (record { at = λ n. ensured n (n.is_network_set) refl })
        (λ n h e. subst (Q true) (sym e) (blocked true))
    where
      network : Combined → Method
      network n = when (not n.is_network_set) (set_network w a)

      lock : Combined → Combined
      lock n = record n { is_kill_switch_set = true }

      ensured :
          (n : Combined) (b : Bool)
          → n.is_network_set ≡ b
          → (when (not b) (set_network w a) n).0 ≡ none
          → (when (not b) (set_network w a) n).1.is_network_set ≡ true
      ensured n true e s = e
      ensured n false e s = (set_network-Ensures w a).at n s

  -- the network is unset only while the kill switch is off
  pub unset_network-Safe :
      (n : Combined)
      → n.is_kill_switch_set ≡ false
      → let m = (unset_network w n).1 in Q m.is_kill_switch_set m.is_network_set
  unset_network-Safe n e =
      let m = (unset_network w n).1 in
      subst (λ k. Q k m.is_network_set) (sym ((unset_network-IsOff w).at n e))
        (unlocked m.is_network_set)

  pub release_network-Safe : Safe (release_network w)
  unfolding release_network ◌>>◌
  release_network-Safe = record { at = λ n. go n n.is_network_set n.is_kill_switch_set refl }
    where
      go :
          (n : Combined) (c k : Bool)
          → n.is_kill_switch_set ≡ k
          → Q n.is_kill_switch_set n.is_network_set
          → let m = (when (c && not k) (ignoring (unset_network w)) n).1 in
            Q m.is_kill_switch_set m.is_network_set
      go n true false e h = unset_network-Safe n e
      go n true true e h = h
      go n false k e h = h

  pub unset_firewall-Safe : Safe (unset_firewall w)
  unfolding unset_firewall ◌>>◌
  unset_firewall-Safe = record { at = λ n. go n n.is_kill_switch_set refl }
    where
      go :
          (n : Combined) (k : Bool)
          → n.is_kill_switch_set ≡ k
          → Q n.is_kill_switch_set n.is_network_set
          → let m = (when (not k) (unset_network w) n).1 in Q m.is_kill_switch_set m.is_network_set
      go n false e h = unset_network-Safe n e
      go n true e h = h

  pub unset_kill_switch-Safe : Safe (unset_kill_switch w)
  unfolding unset_kill_switch unset_network ◌>>◌
  unset_kill_switch-Safe = record { at = λ n. go n n.is_vpn_set }
    where
      release : Combined → Combined
      release n = record n { is_kill_switch_set = false }

      go :
          (n : Combined) (b : Bool)
          → Q n.is_kill_switch_set n.is_network_set
          → let m = (when (not b) (unset_network w) >> update release) n in
            Q m.1.is_kill_switch_set m.1.is_network_set
      go n true h = unlocked n.is_network_set
      go n false h =
          (Keeps-both {P = λ n. Q n.is_kill_switch_set n.is_network_set} (unset_rules w) off release
              (unset_rules-Kept (FirstTwo Q) w) (λ m k. unlocked false)).at
            n h

  pub configure_network-Safe :
      (a : Allowlist) (s : ServerData) (ns : List String) → Safe (configure_network w a s ns)
  unfolding configure_network
  configure_network-Safe a s ns =
      search
        (
          keeps_rules, call-Safe, set_network-Safe, reset_allowlist-Safe, refresh-Safe,
          deny_ipv6-Safe,
        )
        depth 14 fits 6000

  pub failure_recover-Safe : Safe (failure_recover w)
  unfolding failure_recover
  failure_recover-Safe =
      search
        (keeps_rules, Keeps-update, call-Safe, release_network-Safe, stop_allowed_ipv6_traffic-Safe)
        depth 14 fits 6000

  pub switch-Safe : Safe (update (switch_to_next_vpn w))
  unfolding switch_to_next_vpn update
  switch-Safe = record { at = λ n. go n n.next_vpn }
    where
      go :
          (n : Combined) (o : Option Technology)
          → Q n.is_kill_switch_set n.is_network_set
          → let m : Combined = elim o [
            | none ↦ n
            | some v ↦ record n { vpnet = some v; next_vpn = none }
          ] in
            Q m.is_kill_switch_set m.is_network_set
      go n none h = h
      go n (some v) h = h

  pub set_vpn-Safe : (v : Technology) → Safe (set_vpn w v)
  unfolding set_vpn update
  set_vpn-Safe v = record { at = λ n. go n (w.vpn_is_active n.calls) }
    where
      go :
          (n : Combined) (b : Bool)
          → Q n.is_kill_switch_set n.is_network_set
          → let m : Combined =
              if b then record n { next_vpn = some v } else record n { vpnet = some v } in
            Q m.is_kill_switch_set m.is_network_set
      go n true h = h
      go n false h = h

  pub start-Safe :
      (c : String) (s : ServerData) (a : Allowlist) (ns : List String) → Safe (start w c s a ns)
  unfolding start
  start-Safe c s a ns =
      search (keeps_rules, Keeps-update, call-Safe, failure_recover-Safe, configure_network-Safe)
        depth 14 fits 6000

  pub restart-Safe : (c : String) (s : ServerData) (ns : List String) → Safe (restart w c s ns)
  unfolding restart
  restart-Safe c s ns =
      search
        (keeps_rules, Keeps-update, call-Safe, switch-Safe, failure_recover-Safe, deny_ipv6-Safe)
        depth 24 fits 40000

  pub connect-Safe :
      (c : String) (s : ServerData) (a : Allowlist) (ns : List String) (l : Bool)
      → Safe (connect w c s a ns l)
  unfolding connect
  connect-Safe c s a ns l = search (keeps_rules, Keeps-update, start-Safe, restart-Safe) depth 14

  pub stop-Safe : Safe (stop w)
  unfolding stop
  stop-Safe =
      search (keeps_rules, Keeps-update, call-Safe, unset_firewall-Safe, switch-Safe) depth 14 fits
        6000

  pub disconnect-Safe : Safe (disconnect w)
  unfolding disconnect
  disconnect-Safe =
      search (keeps_rules, Keeps-update, tolerating-Kept (FirstTwo Q), stop-Safe) depth 14
