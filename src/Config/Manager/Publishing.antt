-- ===== src/Config/Manager/Publishing.antt =====
-- What the subscribers of the configuration learn from `SaveWith`, against what is saved.
use nordvpn_linux.Prelude.{true, some, ◌≡◌, arith}
use nordvpn_linux.Config.{Config}
use nordvpn_linux.Config.Manager.{File, absent, corrupt, mistyped, valid, Io, load, save_with}

-- Where the load in `SaveWith` succeeds, the save succeeds exactly if a configuration is published,
-- and the published configuration is the one that the file then holds.
pub save_with-published :
    (io : Io) (fn : Config → Config) (file : File)
    → (load io file).1 ≡ true
    → let s = save_with io fn file in
      (s.succeeded ≡ true → s.published ≡ some (fn ((load io file).0)))
      × ((c : Config) → s.published ≡ some c → (s.succeeded ≡ true) × (s.file ≡ valid c))
unfolding save_with load
save_with-published io fn absent e = (λ p. ground arith, λ c p. ground arith)
save_with-published io fn corrupt e = cc
save_with-published io fn (mistyped c) e = cc
save_with-published io fn (valid c) e = (λ p. ground arith, λ d p. ground arith)
