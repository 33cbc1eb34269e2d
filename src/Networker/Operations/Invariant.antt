-- ===== src/Networker/Operations/Invariant.antt =====
-- The reaction to a change of the system's network: what it does to the flags.
use nordvpn_linux.Prelude.{
  Bool, true, false, not, ◌&&◌, List, String, Option, none, some, if◌then◌else◌,
}
use nordvpn_linux.Prelude.Action.{
  succeed, fail, update, reading, when, Keeps-update, Keeps-if, Keeps-succeed, Keeps-fail, Keeps->>,
  Keeps-reading_all, keeps_rules,
}
use nordvpn_linux.Networker.{Error, World, Combined, Method}
use nordvpn_linux.Networker.Network
use nordvpn_linux.Networker.Mesh.{set_mesh, un_set_mesh}
use nordvpn_linux.Networker.Tunnel.{start, stop, handle_network_changed}
use nordvpn_linux.Networker.Reconnect.{
  Outcome, rejoin, after_stop, reconnect, restore, joined, restored, or_else, shielded, reinit,
  refresh_vpn,
}
use nordvpn_linux.Networker.Operations.Flags.{
  Kept, set_mesh-Kept, un_set_mesh-Kept, handle_network_changed-Kept,
}
use nordvpn_linux.Networker.Operations.KillSwitch.{
  FirstTwo, start-Safe, stop-Safe, set_kill_switch-Safe, unset_kill_switch-Safe,
}

module _ (Q : Bool → Bool → Type 0) (blocked : (k : Bool) → Q k true)
    (unlocked : (b : Bool) → Q false b) (w : World) where
  abbrev Holds : Combined → Type 0
  Holds n = Q n.is_kill_switch_set n.is_network_set

  abbrev Safe : Method → Type 0
  Safe m = Kept (FirstTwo Q) m

  un_set_mesh-Safe : Safe (un_set_mesh w)
  un_set_mesh-Safe = un_set_mesh-Kept (FirstTwo Q) w

  rejoin-Safe : (ip : String) → Safe (rejoin w ip)
  unfolding rejoin
  rejoin-Safe ip =
      Keeps->> (un_set_mesh w) (reading λ n. set_mesh w n.cfg ip n.last_private_key)
        un_set_mesh-Safe
        (Keeps-reading_all (λ n. set_mesh w n.cfg ip n.last_private_key)
          (λ n. set_mesh-Kept (FirstTwo Q) (λ k b v h. h) w n.cfg ip n.last_private_key))

  restarted-Safe :
      Safe (reading λ n. start w n.last_creds n.last_server n.allowlist n.last_nameservers)
  restarted-Safe =
      Keeps-reading_all (λ n. start w n.last_creds n.last_server n.allowlist n.last_nameservers)
        (λ n.
          start-Safe Q blocked unlocked w n.last_creds n.last_server n.allowlist n.last_nameservers)

  when-Safe : (b : Bool) (m : Method) → Safe m → Safe (when b m)
  when-Safe b m h = Keeps-if b m succeed h Keeps-succeed

  after_stop-Safe :
      (vpn mesh : Bool) (ip : String) (r : Option Error × Combined)
      → Holds r.1
      → Holds (after_stop w vpn mesh ip r).2
  unfolding after_stop
  after_stop-Safe vpn mesh ip (some e, n) h = h
  after_stop-Safe vpn mesh ip (none, n) h =
      let t = or_else (w.mesh_ip n.calls) ip in
      let m = when mesh (rejoin w t) in
      (when-Safe vpn
          (reading λ n. start w n.last_creds n.last_server n.allowlist n.last_nameservers)
          restarted-Safe).at
        (m n).1 ((when-Safe mesh (rejoin w t) (rejoin-Safe t)).at n h)

  reconnect-Safe : (vpn mesh : Bool) (n : Combined) → Holds n → Holds (reconnect w vpn mesh n).2
  unfolding reconnect
  reconnect-Safe vpn mesh n h =
      after_stop-Safe vpn mesh (if vpn then or_else (w.vpn_ip n.calls) "" else "")
        (when vpn (stop w) n) ((when-Safe vpn (stop w) (stop-Safe Q blocked unlocked w)).at n h)

  restore-Safe : (r : Option Error) → Safe (restore w r)
  unfolding restore
  restore-Safe none = unset_kill_switch-Safe Q blocked unlocked w
  restore-Safe (some e) =
      Keeps->> (update λ n. record n { is_kill_switch_set = false }) (fail e)
        (Keeps-update (λ n. record n { is_kill_switch_set = false })
          (λ n h. unlocked n.is_network_set))
        (Keeps-fail e)

  restored-Safe : (o : Outcome) → Holds o.2 → Holds (restored w o).1
  unfolding restored
  restored-Safe (v, m, n) h = (restore-Safe v).at n h

  shielded-Safe :
      (mesh : Bool) (r : Option Error × Combined) → Holds r.1 → Holds (shielded w mesh r).1
  unfolding shielded
  shielded-Safe mesh (some e, n) h = h
  shielded-Safe mesh (none, n) h =
      restored-Safe (reconnect w true mesh n) (reconnect-Safe true mesh n h)

  joined-Safe : (o : Outcome) → Holds o.2 → Holds (joined w o).1
  unfolding joined
  joined-Safe (v, m, n) h = h

  reinit-Safe : (vpn mesh : Bool) (new : List String) → Safe (reinit w vpn mesh new)
  unfolding reinit reading
  reinit-Safe vpn mesh new =
      Keeps->> (update λ n. record n { interfaces = new }) (reading run)
        (Keeps-update (λ n. record n { interfaces = new }) (λ n h. h))
        (record { at = λ n. go n (vpn && not n.is_kill_switch_set) })
    where
      run : Combined → Method
      run n =
          if vpn && not n.is_kill_switch_set
          then (λ n. shielded w mesh (Network.set_kill_switch w n.allowlist n))
          else (λ n. joined w (reconnect w vpn mesh n))

      go :
          (n : Combined) (b : Bool)
          → Holds n
          → let m : Method =
              if b
              then (λ n. shielded w mesh (Network.set_kill_switch w n.allowlist n))
              else (λ n. joined w (reconnect w vpn mesh n)) in
            Holds (m n).1
      go n true h =
          shielded-Safe mesh (Network.set_kill_switch w n.allowlist n)
            ((set_kill_switch-Safe Q blocked unlocked w n.allowlist).at n h)
      go n false h = joined-Safe (reconnect w vpn mesh n) (reconnect-Safe vpn mesh n h)

  handle_network_changed-Safe : Safe (handle_network_changed w)
  handle_network_changed-Safe = handle_network_changed-Kept (FirstTwo Q) w

  pub refresh_vpn-Safe : Safe (refresh_vpn w)
  unfolding refresh_vpn
  refresh_vpn-Safe = search (keeps_rules, reinit-Safe, handle_network_changed-Safe) depth 12
