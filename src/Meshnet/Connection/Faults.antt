-- ===== src/Meshnet/Connection/Faults.antt =====
-- The job that follows the file sharing process.
use nordvpn_linux.Prelude.{true, false, List, [], ◌∷◌, ◌++◌, none, some, string_eq, ◌≡◌, ap, ◌∙◌}
use nordvpn_linux.Prelude.Action.{succeed, reading, ignoring, for_each, ◌>>◌}
use nordvpn_linux.Networker.Rules
use nordvpn_linux.Networker.Rules.{rule_name, allow_fileshare_rule}
use nordvpn_linux.Networker.Rules.Peers.{allow_fileshare-rules}
use nordvpn_linux.Meshnet.{
  lib_failure, Backend, Server, Handler, Device, MachinePeer, load_config, list_peers, loading,
  on_networker,
}
use nordvpn_linux.Meshnet.Steps.{asking-answered, with_device-some, on_networker-netw}
use nordvpn_linux.Meshnet.Connection.{toggled, toggle_fileshare, with_peers}

module _ (b : Backend) where
  with_peers-succeeded :
      (k : List MachinePeer → Handler) (s : Server) (d : Device) (ps : List MachinePeer)
      → b.answers s.requests load_config ≡ none
      → s.settings.device ≡ some d
      → b.answers (load_config ∷ s.requests) (list_peers s.settings.token d.id) ≡ none
      → b.peers (list_peers s.settings.token d.id ∷ load_config ∷ s.requests) ≡ ps
      → with_peers b k s
        ≡ k ps (record s { requests = list_peers s.settings.token d.id ∷ load_config ∷ s.requests })
  unfolding with_peers loading reading
  with_peers-succeeded k s d ps load device list listed =
      asking-answered b load_config _ _ s load
      ∙ ap (λ m. m (record s { requests = load_config ∷ s.requests }))
          (with_device-some b s.settings _ d device)
      ∙ asking-answered b (list_peers s.settings.token d.id) _ _
          (record s { requests = load_config ∷ s.requests }) list
      ∙ ap
          (λ ps.
            k ps
              (record s { requests = list_peers s.settings.token d.id ∷ load_config ∷ s.requests }))
          listed

  toggle_one-netw :
      (p : MachinePeer) (s : Server)
      → (for_each (λ p. ignoring (on_networker b (toggled b true p) lib_failure)) (p ∷ []) s).1.netw
        ≡ (Rules.allow_fileshare b.world p.public_key p.address s.netw).1
  unfolding for_each ignoring succeed ◌>>◌
  toggle_one-netw p s = on_networker-netw b _ lib_failure s

-- When the file sharing process comes up, a peer that is denied file sharing gets the rule that allows it,
-- if the networker admits the rule.
pub toggle_fileshare-rules :
    (b : Backend) (s : Server) (d : Device) (p : MachinePeer)
    → b.answers s.requests load_config ≡ none
    → s.settings.device ≡ some d
    → b.answers (load_config ∷ s.requests) (list_peers s.settings.token d.id) ≡ none
    → b.peers (list_peers s.settings.token d.id ∷ load_config ∷ s.requests) ≡ p ∷ []
    → p.do_i_allow_fileshare ≡ false
    → (Rules.allow_fileshare b.world p.public_key p.address s.netw).0 ≡ none
    → (toggle_fileshare b true s).1.netw.rules
      ≡ s.netw.rules ++ rule_name p.public_key allow_fileshare_rule p.address ∷ []
unfolding toggle_fileshare
toggle_fileshare-rules b s d p load device list only denied allowed =
    let t = record s { requests = list_peers s.settings.token d.id ∷ load_config ∷ s.requests } in
    ap (λ r. r.1.netw.rules)
      (with_peers-succeeded b
        (λ peers. for_each (λ p. ignoring (on_networker b (toggled b true p) lib_failure)) peers) s
        d (p ∷ []) load device list only)
    ∙ ap (λ n. n.rules) (toggle_one-netw b p t)
    ∙ (allow_fileshare-rules b.world p.public_key p.address s.netw allowed).1
