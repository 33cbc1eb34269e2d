-- ===== src/Networker/Operations/Starting.antt =====
-- The flag of the VPN after a start.
use nordvpn_linux.Prelude.{
  Bool, true, false, not, List, String, Option, none, some, if◌then◌else◌, ◌≡◌, refl,
}
use nordvpn_linux.Prelude.Action.{
  fail, update, reading, recovering, ◌>>◌, Keeps-update, keeps_rules,
}
use nordvpn_linux.Config.Allowlist.{Allowlist}
use nordvpn_linux.Networker.{
  Error, already_started, nil_vpn, Call, MachineMap, call, World, Combined, Method, ServerData,
}
use nordvpn_linux.Networker.Network.{
  set_network, unset_network, set_rules, unset_rules, reset_allowlist,
}
use nordvpn_linux.Networker.Mesh.{refresh}
use nordvpn_linux.Networker.Rules.{stop_allowed_ipv6_traffic}
use nordvpn_linux.Networker.Tunnel.{
  deny_ipv6, release_network, configure_network, failure_recover, start, launch, prepare, connected,
  begin, has_vpn, or_last,
}
use nordvpn_linux.Networker.Operations.Flags.{
  Kept, call-Kept, set_rules-Kept, unset_rules-Kept, reset_allowlist-Kept, refresh-Kept,
  deny_ipv6-Kept, stop_allowed_ipv6_traffic-Kept,
}

abbrev IsDown : Bool → Bool → Bool → Type 0
IsDown k b v = v ≡ false

module _ (w : World) where
  abbrev Down : Method → Type 0
  Down m = Kept IsDown m

  call-Down : (c : Call) → Down (call w c)
  call-Down c = call-Kept IsDown w c

  reset_allowlist-Down : Down (reset_allowlist w)
  reset_allowlist-Down = reset_allowlist-Kept IsDown w

  refresh-Down : (cfg : MachineMap) → Down (refresh w cfg)
  refresh-Down cfg = refresh-Kept IsDown w cfg

  deny_ipv6-Down : Down (deny_ipv6 w)
  deny_ipv6-Down = deny_ipv6-Kept IsDown w

  stop_allowed_ipv6_traffic-Down : Down (stop_allowed_ipv6_traffic w)
  stop_allowed_ipv6_traffic-Down = stop_allowed_ipv6_traffic-Kept IsDown w

  set_rules-Down : (a : Allowlist) → Down (set_rules w a)
  set_rules-Down a = set_rules-Kept IsDown w a

  unset_rules-Down : Down (unset_rules w)
  unset_rules-Down = unset_rules-Kept IsDown w

  set_network-Down : (a : Allowlist) → Down (set_network w a)
  unfolding set_network
  set_network-Down a = search (keeps_rules, Keeps-update, set_rules-Down) depth 8

  unset_network-Down : Down (unset_network w)
  unfolding unset_network
  unset_network-Down = search (keeps_rules, Keeps-update, unset_rules-Down) depth 8

  release_network-Down : Down (release_network w)
  unfolding release_network
  release_network-Down = search (keeps_rules, unset_network-Down) depth 8

  configure_network-Down :
      (a : Allowlist) (s : ServerData) (ns : List String) → Down (configure_network w a s ns)
  unfolding configure_network
  configure_network-Down a s ns =
      search
        (
          keeps_rules, call-Down, set_network-Down, reset_allowlist-Down, refresh-Down,
          deny_ipv6-Down,
        )
        depth 14 fits 6000

  failure_recover-Down : Down (failure_recover w)
  unfolding failure_recover
  failure_recover-Down =
      search
        (keeps_rules, Keeps-update, call-Down, release_network-Down, stop_allowed_ipv6_traffic-Down)
        depth 14 fits 6000

  prepare-Down : (s : ServerData) (a : Allowlist) (ns : List String) → Down (prepare w s a ns)
  unfolding prepare launch
  prepare-Down s a ns = search (keeps_rules, call-Down, configure_network-Down) depth 14 fits 6000

abbrev pub succeeded : Option Error → Bool
succeeded none = true
succeeded (some e) = false

-- what the start leaves, by its result
abbrev IsAnswered : ServerData → Option Error × Combined → Type 0
IsAnswered server r = (r.1.is_vpn_set ≡ succeeded r.0) × (r.0 ≡ none → r.1.last_server ≡ server)

recovered :
    (w : World) (c : String) (s : ServerData) (a : Allowlist) (ns : List String) (n : Combined)
    → n.is_vpn_set ≡ false
    → IsAnswered s (recovering (failure_recover w) (begin w c s a ns) n)
unfolding begin recovering update ◌>>◌
recovered w c s a ns n e =
    go (prepare w s a ns n).0 (prepare w s a ns n).1 ((prepare-Down w s a ns).at n e)
  where
    go :
        (r : Option Error) (m : Combined)
        → m.is_vpn_set ≡ false
        → IsAnswered s
            (recovering (failure_recover w) ((λ m. (r, m)) >> update (connected w c s ns)) m)
    go none m h = (refl, λ x. refl)
    go (some x) m h = ((failure_recover-Down w).at m h, λ y. cc)

-- Starting a VPN that is not set: the flag is set exactly if the start succeeds, and then the last server
-- is the given one, or the one before where the given one has no address. Whatever fails on the way, the
-- VPN, the routes or the firewall, leaves the flag unset.
pub start-is_vpn_set :
    (w : World) (creds : String) (server : ServerData) (allowlist : Allowlist)
    (nameservers : List String) (n : Combined)
    → n.is_vpn_set ≡ false
    → let r = start w creds server allowlist nameservers n in
      (r.1.is_vpn_set ≡ succeeded r.0) × (r.0 ≡ none → r.1.last_server ≡ or_last server n)
unfolding start reading fail
start-is_vpn_set w c s a ns n e = go n.is_vpn_set (has_vpn w n) e
  where
    go :
        (v b : Bool)
        → v ≡ false
        → IsAnswered (or_last s n) (
            (if v
                then fail already_started
                else if not b
                then fail nil_vpn
                else recovering (failure_recover w) (begin w c (or_last s n) a ns))
              n)
    go true b h = cc
    go false false h = (e, λ y. cc)
    go false true h = recovered w c (or_last s n) a ns n e
