-- ===== src/Meshnet/Listing/Maps.antt =====
-- The maps of peers by public key and by name.
use nordvpn_linux.Prelude.{
  Bool, List, [], ◌∷◌, ◌++◌, String, Option, none, some, map, contains, if◌then◌else◌, string_eq,
  ◌==◌, ◌≡◌, refl, arith, ◌∙◌,
}
use nordvpn_linux.Meshnet.{Backend, MachinePeer, ListedPeer, PeerList}
use nordvpn_linux.Meshnet.Listing.{PeerMap, lookup, assign, fill_maps, make_peer_maps, names_of}

-- the last element that passes the test
unfoldable pub find_last {ℓ} : {A : Type ℓ} → (A → Bool) → List A → Option A
find_last p [] = none
find_last p (x ∷ xs) = elim (find_last p xs) [
  | none ↦ (if p x then some x else none)
  | some y ↦ some y
]

abbrev or_else {ℓ} : {A : Type ℓ} → Option A → Option A → Option A
or_else none o = o
or_else (some a) o = some a

abbrev pub all_peers : PeerList → List MachinePeer
all_peers list = map (λ (l : ListedPeer). l.peer) (list.external_peers ++ list.local_peers)

lookup-assign :
    (n : String) (ks : List String) (p : MachinePeer) (m : PeerMap)
    → lookup n (assign ks p m) ≡ (if contains ks n then some p else lookup n m)
unfolding lookup assign contains
lookup-assign n [] p m = refl
lookup-assign n (k ∷ ks) p m = ground (arith, lookup-assign n ks p ((k, p) ∷ m))

lookup-fill_maps_key :
    (b : Backend) (n : String) (ps : List MachinePeer) (maps : PeerMap × PeerMap)
    → lookup n (fill_maps b ps maps).0
      ≡ or_else (find_last (λ p. p.public_key == n) ps) (lookup n maps.0)
unfolding lookup fill_maps find_last
lookup-fill_maps_key b n [] maps = refl
lookup-fill_maps_key b n (p ∷ ps) (by_key, by_name) = ground (
  arith,
  lookup-fill_maps_key b n ps ((p.public_key, p) ∷ by_key, assign (names_of b p) p by_name),
)

lookup-fill_maps_name :
    (b : Backend) (n : String) (ps : List MachinePeer) (maps : PeerMap × PeerMap)
    → lookup n (fill_maps b ps maps).1
      ≡ or_else (find_last (λ p. contains (names_of b p) n) ps) (lookup n maps.1)
unfolding fill_maps find_last
lookup-fill_maps_name b n [] maps = refl
lookup-fill_maps_name b n (p ∷ ps) (by_key, by_name) = ground (
  arith,
  lookup-fill_maps_name b n ps ((p.public_key, p) ∷ by_key, assign (names_of b p) p by_name),
  lookup-assign n (names_of b p) p by_name,
)

or_else-none {ℓ} : {A : Type ℓ} (o : Option A) → or_else o none ≡ o
or_else-none none = refl
or_else-none (some a) = refl

-- Looking up a public key in the first map finds the last peer with that key, and looking up a name in the
-- second one the last peer that has the name: its address, its host name with or without the suffix, or
-- its nickname with or without it. The user's own peers come after the external ones.
pub lookup-make_peer_maps :
    (b : Backend) (list : PeerList) (n : String)
    → (lookup n (make_peer_maps b list).0 ≡ find_last (λ p. p.public_key == n) (all_peers list))
      × (lookup n (make_peer_maps b list).1
          ≡ find_last (λ p. contains (names_of b p) n) (all_peers list))
unfolding make_peer_maps lookup
lookup-make_peer_maps b list n = (
  lookup-fill_maps_key b n (all_peers list) ([], []) ∙ or_else-none _,
  lookup-fill_maps_name b n (all_peers list) ([], []) ∙ or_else-none _,
)
