-- ===== src/Merkle/Root.antt =====
-- The root of a list of hashes and the tree over it (skepticoin/merkletree.py).
use skepticoin.Crypto.{Crypto}
use skepticoin.Merkle.{
  MerkleNode, enumerate_leaves, get_merkle_root, get_merkle_tree, merkle_root_loop,
  merkle_tree_loop, node_hash, pair_hashes, pair_nodes,
}
use skepticoin.Prelude.{Bytes, List, [], arith, length, refl, suc, zero, ℕ, ◌+◌, ◌<◌, ◌∷◌, ◌≡◌, ◌≤◌}
use skepticoin.Prelude.Result.{ok, ◌>>=◌}
use skepticoin.Crypto.{sha256d}
use skepticoin.Prelude.{◌++◌}

module _ ⦃c : Crypto⦄ where
  length-pair_hashes : (hs : List Bytes) → length (pair_hashes hs) ≤ length hs
  unfolding pair_hashes
  length-pair_hashes [] = omega arith
  length-pair_hashes (x ∷ []) = omega arith
  length-pair_hashes (x ∷ y ∷ hs) = omega (arith, length-pair_hashes hs)

  -- A list of nodes over the list of their hashes.
  abbrev HashesOf : List MerkleNode → List Bytes → Type 0
  HashesOf [] [] = Unit
  HashesOf (n ∷ ns) (h ∷ hs) = (node_hash n ≡ ok h) × HashesOf ns hs
  HashesOf _ _ = ⊥

  HashesOf-pair :
      (ns : List MerkleNode) (hs : List Bytes)
      → HashesOf ns hs
      → HashesOf (pair_nodes ns) (pair_hashes hs)
  unfolding pair_nodes pair_hashes node_hash
  HashesOf-pair [] [] h = tt
  HashesOf-pair (n ∷ []) (x ∷ []) h = h
  HashesOf-pair (n ∷ m ∷ ns) (x ∷ y ∷ hs) (hn, (hm, h)) = (rw (hn, hm) refl, HashesOf-pair ns hs h)
  HashesOf-pair (n ∷ []) (x ∷ y ∷ hs) h = absurd h.1
  HashesOf-pair (n ∷ m ∷ ns) (x ∷ []) h = absurd h.1
  HashesOf-pair [] (x ∷ hs) h = absurd h
  HashesOf-pair (n ∷ ns) [] h = absurd h

  HashesOf-enumerate : (i : ℕ) (hs : List Bytes) → HashesOf (enumerate_leaves i hs) hs
  unfolding enumerate_leaves node_hash
  HashesOf-enumerate i [] = tt
  HashesOf-enumerate i (h ∷ hs) = (refl, HashesOf-enumerate (i + 1) hs)

  tree-root_loop :
      (fuel : ℕ) (ns : List MerkleNode) (hs : List Bytes)
      → HashesOf ns hs
      → (merkle_tree_loop fuel ns >>= node_hash) ≡ merkle_root_loop fuel hs
  unfolding merkle_tree_loop merkle_root_loop pair_nodes pair_hashes
  tree-root_loop zero ns hs h = refl
  tree-root_loop (suc fuel) [] [] h = tree-root_loop fuel [] [] h
  tree-root_loop (suc fuel) (n ∷ []) (x ∷ []) h = h.0
  tree-root_loop (suc fuel) (n ∷ m ∷ ns) (x ∷ y ∷ hs) h =
      tree-root_loop fuel _ _ (HashesOf-pair (n ∷ m ∷ ns) (x ∷ y ∷ hs) h)
  tree-root_loop (suc fuel) (n ∷ []) (x ∷ y ∷ hs) h = absurd h.1
  tree-root_loop (suc fuel) (n ∷ m ∷ ns) (x ∷ []) h = absurd h.1
  tree-root_loop (suc fuel) [] (x ∷ hs) h = absurd h
  tree-root_loop (suc fuel) (n ∷ ns) [] h = absurd h

  -- For every list of hashes, the hash of its tree is its root, with the same error if there is one.
  pub node_hash-get_merkle_tree :
      (hs : List Bytes) → (get_merkle_tree hs >>= node_hash) ≡ get_merkle_root hs
  unfolding get_merkle_tree get_merkle_root
  node_hash-get_merkle_tree hs = tree-root_loop (length hs) _ hs (HashesOf-enumerate 0 hs)

  merkle_root_loop_total :
      (fuel : ℕ) (h : Bytes) (hs : List Bytes)
      → length hs < fuel
      → (root : Bytes) × (merkle_root_loop fuel (h ∷ hs) ≡ ok root)
  unfolding merkle_root_loop pair_hashes
  merkle_root_loop_total zero h hs lt = absurd (omega arith)
  merkle_root_loop_total (suc fuel) h [] lt = (h, refl)
  merkle_root_loop_total (suc fuel) h (x ∷ hs) lt =
      merkle_root_loop_total fuel (sha256d (h ++ x)) (pair_hashes hs)
        (omega (arith, length-pair_hashes hs))

  -- Every list of at least one hash has a root: the rounds of the recursion are enough.
  pub get_merkle_root_total :
      (h : Bytes) (hs : List Bytes) → (root : Bytes) × (get_merkle_root (h ∷ hs) ≡ ok root)
  unfolding get_merkle_root
  get_merkle_root_total h hs = merkle_root_loop_total (suc (length hs)) h hs (omega arith)
