-- ===== src/Daemon/Allowlisting/Commit.antt =====
-- What a request that changes the allowlist does to the saved configuration.
use nordvpn_linux.Prelude.{
  ℤ, int_eq, string_eq, bool_eq, Bool, false, ◌||◌, List, some, ◌≡◌, ◌≢◌, ◌⊎◌, refl, subst, arith,
  Bool-cases, inl, inr, ◌∙◌,
}
use nordvpn_linux.Config.{Config}
use nordvpn_linux.Config.Allowlist.{Allowlist}
use nordvpn_linux.Config.Manager
use nordvpn_linux.Daemon.State.{Env, Daemon, Call, Code, Reply, payload, success}
use nordvpn_linux.Daemon.Subnets.{AddressParser}
use nordvpn_linux.Daemon.Allowlisting.{
  are_ports_valid, NewAllowlist, valid, invalid, AllowlistRequest, nothing, subnet, ports,
  get_new_allowlist, with_udp, with_tcp, and_then_tcp, is_subnet_valid, change_allowlist,
  handle_if_valid, handle_new_allowlist,
}

are_ports_valid-refusal :
    (start stop : ℤ) (current : List ℤ) (removing : Bool) (code : Code)
    → are_ports_valid start stop current removing ≡ some code
    → code ≢ success
unfolding are_ports_valid
are_ports_valid-refusal start stop current removing code e h = ground arith

get_new_allowlist-refusal :
    (parser : AddressParser) (request : AllowlistRequest) (removing : Bool) (c : Config)
    (code : Code)
    → get_new_allowlist parser request removing c ≡ invalid code
    → code ≢ success
unfolding get_new_allowlist and_then_tcp with_udp with_tcp is_subnet_valid
get_new_allowlist-refusal parser nothing removing c code e h = cc
get_new_allowlist-refusal parser (subnet s) removing c code e h = ground arith
get_new_allowlist-refusal parser (ports udp tcp start stop) removing c code e h =
    go (with_udp udp start stop removing old) refl e
  where
    old : Allowlist
    old = c.auto_connect_data.allowlist

    first : with_udp udp start stop removing old ≡ invalid code → ⊥
    first q = ground (arith, are_ports_valid-refusal start stop old.ports.udp removing code)

    go :
        (m : NewAllowlist)
        → with_udp udp start stop removing old ≡ m
        → and_then_tcp tcp start stop removing m ≡ invalid code
        → ⊥
    go (invalid x) p q = first (p ∙ q)
    go (valid a) p q = ground (arith, are_ports_valid-refusal start stop a.ports.tcp removing code)

-- What `handleNewAllowlist` and the code around it do with the outcome of `getNewAllowlist`.
abbrev Committed : Env → NewAllowlist → Daemon → Config → Daemon × Reply → Type 0
Committed env m d c out =
    ((b : Allowlist) × (m ≡ valid b)
      × (env.refuses (Call.set_allowlist b) ≡ false)
      × (out.1 ≡ payload success)
      × (out.0.file
          ≡ Manager.valid
              (record c { auto_connect_data = record (c.auto_connect_data) { allowlist = b } })))
    ⊎ (¬ (out.1 ≡ payload success)) × (out.0.file ≡ d.file)

handle_if_valid-Committed :
    (env : Env) (m : NewAllowlist) (d : Daemon) (c : Config)
    → d.file ≡ Manager.valid c
    → env.save_io.read_fails ≡ false
    → ((code : Code) → m ≡ invalid code → code ≢ success)
    → Committed env m d c (handle_if_valid env m d)
unfolding handle_if_valid handle_new_allowlist
handle_if_valid-Committed env (invalid code) d c file reads refused =
    inr ((λ e. refused code refl (ground arith)), refl)
handle_if_valid-Committed env (valid b) d c file reads refused =
    elim (Bool-cases (env.refuses (Call.set_allowlist b) || env.save_io.write_fails)) [
      | inl p ↦ inr ((λ e. ground arith), ground arith)
      | inr p ↦ inl (b, refl, ground arith, ground arith, ground arith)
    ]

-- On a readable configuration file, a request that changes the allowlist and answers with success has
-- saved exactly that allowlist, accepted by the networker; otherwise the file is as it was.
pub change_allowlist-commits :
    (env : Env) (parser : AddressParser) (request : AllowlistRequest) (removing : Bool) (d : Daemon)
    (c : Config)
    → d.file ≡ Manager.valid c
    → env.load_io.read_fails ≡ false
    → env.save_io.read_fails ≡ false
    → let out = change_allowlist env parser request removing d in
      ((b : Allowlist) × (get_new_allowlist parser request removing c ≡ valid b)
        × (env.refuses (Call.set_allowlist b) ≡ false)
        × (out.1 ≡ payload success)
        × (out.0.file
            ≡ Manager.valid
                (record c { auto_connect_data = record (c.auto_connect_data) { allowlist = b } })))
      ⊎ (¬ (out.1 ≡ payload success)) × (out.0.file ≡ d.file)
unfolding change_allowlist
change_allowlist-commits env parser request removing d c file reads rereads =
    let m = get_new_allowlist parser request removing c in
    let same : handle_if_valid env m d ≡ change_allowlist env parser request removing d =
      ground arith in
    subst (Committed env m d c) same (
      handle_if_valid-Committed env m d c file rereads
        (get_new_allowlist-refusal parser request removing c))
