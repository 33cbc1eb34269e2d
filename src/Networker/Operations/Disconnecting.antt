-- ===== src/Networker/Operations/Disconnecting.antt =====
-- The end of a connection while the kill switch is set.
use nordvpn_linux.Prelude.{
  Bool, true, not, Option, none, some, if◌then◌else◌, ◌≡◌, refl, sym, subst,
}
use nordvpn_linux.Prelude.Action.{
  succeed, fail, update, reading, ◌>>◌, when, Keeps, Keeps-update, Keeps-if, Keeps-catching,
  Keeps-succeed, Keeps-fail, keeps_rules,
}
use nordvpn_linux.Config.{Technology}
use nordvpn_linux.Firewall.Service.{Firewall}
use nordvpn_linux.Networker.{Error, Call, World, Combined, Method, call, tolerating}
use nordvpn_linux.Networker.Network.{unset_firewall, unset_network}
use nordvpn_linux.Networker.Tunnel.{switch_to_next_vpn, stop, disconnect}

module _ (fw : Firewall) (w : World) where
  abbrev IsLocked : Combined → Type 0
  IsLocked n = (n.fw ≡ fw) × (n.is_kill_switch_set ≡ true)

  abbrev Locked : Method → Type 0
  Locked m = Keeps IsLocked m

  call-Locked : (c : Call) → Locked (call w c)
  unfolding call
  call-Locked c = record { at = λ n h. h }

  tolerating-Locked : (test : Error → Bool) (m : Method) → Locked m → Locked (tolerating test m)
  unfolding tolerating
  tolerating-Locked test m h =
      Keeps-catching (λ e. if test e then succeed else fail e) m
        (λ e. Keeps-if (test e) succeed (fail e) Keeps-succeed (Keeps-fail e)) h

  unset_firewall-Locked : Locked (unset_firewall w)
  unfolding unset_firewall reading ◌>>◌
  unset_firewall-Locked = record {
    at = λ n h. subst (λ k. IsLocked (when (not k) (unset_network w) n).1) (sym h.1) h;
  }

  switch-Locked : Locked (update (switch_to_next_vpn w))
  unfolding switch_to_next_vpn update
  switch-Locked = record { at = λ n. go n n.next_vpn }
    where
      go :
          (n : Combined) (o : Option Technology)
          → IsLocked n
          → IsLocked (elim o [ none ↦ n | some v ↦ record n { vpnet = some v; next_vpn = none } ])
      go n none h = h
      go n (some v) h = h

  stop-Locked : Locked (stop w)
  unfolding stop
  stop-Locked =
      search (keeps_rules, Keeps-update, call-Locked, unset_firewall-Locked, switch-Locked) depth 14
        fits 6000

  disconnect-Locked : Locked (disconnect w)
  unfolding disconnect
  disconnect-Locked = search (keeps_rules, Keeps-update, tolerating-Locked, stop-Locked) depth 14

-- Ending the connection while the kill switch is set leaves the firewall as it was, its rules and those
-- installed, and the kill switch set.
pub disconnect-fw :
    (w : World) (n : Combined)
    → n.is_kill_switch_set ≡ true
    → let m = (disconnect w n).1 in (m.fw ≡ n.fw) × (m.is_kill_switch_set ≡ true)
disconnect-fw w n e = (disconnect-Locked n.fw w).at n (refl, e)
