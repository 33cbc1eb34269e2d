-- ===== src/Config/Allowlist/Laws.antt =====
-- What a map holds after a loop of insertions or deletions.
use nordvpn_linux.Prelude.{
  not, ◌&&◌, ◌||◌, List, [], ◌∷◌, insert, remove, Eq, contains, contains-insert, contains-remove,
  Nodup, insert-Nodup, remove-Nodup, ◌≡◌, refl, arith,
}
use nordvpn_linux.Config.Allowlist.{add_all, remove_all}

module _ {ℓ} {A : Type ℓ} ⦃e : Eq A⦄ where
  pub contains-add_all :
      (ks m : List A) (a : A) → contains (add_all ks m) a ≡ (contains ks a || contains m a)
  unfolding add_all contains
  contains-add_all [] m a = refl
  contains-add_all (k ∷ ks) m a =
      ground (arith, contains-add_all ks (insert k m) a, contains-insert k a m)

  pub contains-remove_all :
      (ks m : List A) (a : A) → contains (remove_all ks m) a ≡ (not (contains ks a) && contains m a)
  unfolding remove_all contains
  contains-remove_all [] m a = refl
  contains-remove_all (k ∷ ks) m a =
      ground (arith, contains-remove_all ks (remove k m) a, contains-remove k a m)

  pub add_all-Nodup : (ks m : List A) → Nodup m → Nodup (add_all ks m)
  unfolding add_all
  add_all-Nodup [] m h = h
  add_all-Nodup (k ∷ ks) m h = add_all-Nodup ks (insert k m) (insert-Nodup k m h)

  pub remove_all-Nodup : (ks m : List A) → Nodup m → Nodup (remove_all ks m)
  unfolding remove_all
  remove_all-Nodup [] m h = h
  remove_all-Nodup (k ∷ ks) m h = remove_all-Nodup ks (remove k m) (remove-Nodup k m h)
