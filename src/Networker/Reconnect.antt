-- ===== src/Networker/Reconnect.antt =====
-- The reaction to a change of the system's network: `refreshVPN` of networker/vpn.go.
use nordvpn_linux.Prelude.{
  string_eq, Bool, true, false, not, ◌&&◌, List, String, Option, none, some, contains,
  contains_func, if◌then◌else◌,
}
use nordvpn_linux.Prelude.Action.{succeed, fail, update, reading, catching, ◌>>◌, when}
use nordvpn_linux.Networker.{World, Combined, Method, Error, other}
use nordvpn_linux.Networker.Network.{set_kill_switch, unset_kill_switch}
use nordvpn_linux.Networker.Mesh.{set_mesh, un_set_mesh}
use nordvpn_linux.Networker.Tunnel.{start, stop, handle_network_changed}

-- `vpnErr`, `meshErr` and the networker
abbrev pub Outcome : Type 0
Outcome = Option Error × Option Error × Combined

abbrev pub or_else : Option String → String → String
or_else none s = s
or_else (some t) s = t

-- errors.Join
abbrev pub join_errors : Option Error → Option Error → Option Error
join_errors none m = m
join_errors (some e) m = some e

module _ (w : World) where
  unfoldable pub rejoin : String → Method
  rejoin ip = do un_set_mesh w; reading λ n. set_mesh w n.cfg ip n.last_private_key

  -- what follows the stop of the VPN
  unfoldable pub after_stop : Bool → Bool → String → Option Error × Combined → Outcome
  unfolding rejoin
  after_stop vpn mesh ip (some e, n) = (some e, none, n)
  after_stop vpn mesh ip (none, n) =
      let (m, n₁) = when mesh (rejoin (or_else (w.mesh_ip n.calls) ip)) n in
      let (v, n₂) =
        when vpn (reading λ n. start w n.last_creds n.last_server n.allowlist n.last_nameservers)
          n₁ in
      (v, m, n₂)

  unfoldable pub reconnect : Bool → Bool → Combined → Outcome
  unfolding after_stop
  reconnect vpn mesh n =
      after_stop vpn mesh (if vpn then or_else (w.vpn_ip n.calls) "" else "") (when vpn (stop w) n)

  -- The deferred function of the kill switch. After an error only the flag is cleared: the rules stay.
  unfoldable pub restore : Option Error → Method
  restore none = unset_kill_switch w
  restore (some e) = update (λ n. record n { is_kill_switch_set = false }) >> fail e

  unfoldable pub joined : Outcome → Option Error × Combined
  joined (v, m, n) = (join_errors v m, n)

  unfoldable pub restored : Outcome → Option Error × Combined
  unfolding restore
  restored (v, m, n) = let (v', n') = restore v n in (join_errors v' m, n')

  -- The error of the kill switch is overwritten by the deferred `errors.Join(vpnErr, meshErr)`.
  unfoldable pub shielded : Bool → Option Error × Combined → Option Error × Combined
  unfolding reconnect restored
  shielded mesh (some e, n) = (none, n)
  shielded mesh (none, n) = restored (reconnect true mesh n)

  unfoldable pub reinit : Bool → Bool → List String → Method
  unfolding shielded joined
  reinit vpn mesh new = do
    update λ n. record n { interfaces = new }
    reading λ n.
        if vpn && not n.is_kill_switch_set
        then (λ n. shielded mesh (set_kill_switch w n.allowlist n))
        else (λ n. joined (reconnect vpn mesh n))

  unfoldable pub refresh_vpn : Method
  unfolding reinit
  refresh_vpn = reading λ n.
      let new = w.default_interfaces n.calls in
      let detected = contains_func (λ i. not (contains n.interfaces i)) new in
      if not n.is_vpn_set && not n.is_meshnet_set
      then succeed
      else catching (λ _. reinit n.is_vpn_set n.is_meshnet_set new)
          (if detected then fail other else handle_network_changed w)
