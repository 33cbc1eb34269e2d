-- ===== src/Networker/Operations/Restarting.antt =====
-- The flag of the VPN after a restart.
use nordvpn_linux.Prelude.{
  Bool, true, false, not, List, String, Option, none, some, if◌then◌else◌, ◌≡◌, sym, subst,
}
use nordvpn_linux.Prelude.Action.{
  fail, reading, recovering, Ensures, Ensures-update, Ensures->>, Succeeds, succeeds_rules,
}
use nordvpn_linux.Config.{Technology}
use nordvpn_linux.Networker.{Error, World, Combined, Method, ServerData, nil_vpn}
use nordvpn_linux.Networker.Tunnel.{release_network, failure_recover, resume, restart, has_vpn}

failure_recover-Succeeds : (w : World) → Succeeds (failure_recover w)
unfolding failure_recover release_network
failure_recover-Succeeds w = search (succeeds_rules) depth 12 fits 6000

failure_recover-Ensures :
    (w : World) → Ensures (λ (n : Combined). n.is_vpn_set ≡ false) (failure_recover w)
unfolding failure_recover
failure_recover-Ensures w = search (Ensures->>, Ensures-update) depth 12

recovering-Ensures :
    (w : World) (m : Method) (n : Combined) (e : Error)
    → (recovering (failure_recover w) m n).0 ≡ some e
    → (recovering (failure_recover w) m n).1.is_vpn_set ≡ false
unfolding recovering
recovering-Ensures w m n e = after (m n).0 (m n).1
  where
    after :
        (r : Option Error) (k : Combined)
        → (recovering (failure_recover w) (λ n. (r, k)) n).0 ≡ some e
        → (recovering (failure_recover w) (λ n. (r, k)) n).1.is_vpn_set ≡ false
    after none k h = cc
    after (some x) k h = (failure_recover-Ensures w).at k ((failure_recover-Succeeds w).at k)

-- Where the networker has a VPN, a restart that fails leaves it unset: the recovery always comes to its end.
pub restart-is_vpn_set :
    (w : World) (creds : String) (server : ServerData) (nameservers : List String) (n : Combined)
    (vpn : Technology) (e : Error)
    → n.vpnet ≡ some vpn
    → (restart w creds server nameservers n).0 ≡ some e
    → (restart w creds server nameservers n).1.is_vpn_set ≡ false
unfolding restart reading has_vpn
restart-is_vpn_set w creds server nameservers n vpn e present =
    let run : Bool → Method = λ b.
      if not b
      then fail nil_vpn
      else recovering (failure_recover w) (resume w creds server nameservers) in
    subst
      (λ o.
        let r = run (elim o [ none ↦ false | some _ ↦ true ]) n in
        r.0 ≡ some e → r.1.is_vpn_set ≡ false)
      (sym present) (recovering-Ensures w (resume w creds server nameservers) n e)
