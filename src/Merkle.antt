-- ===== src/Merkle.antt =====
-- skepticoin/merkletree.py: the root of a list of hashes, the tree over it, and proofs that a hash
-- is in the tree.
pub mod Root
pub mod Proof
use skepticoin.Crypto
use skepticoin.Crypto.{Crypto, sha256d}
use skepticoin.Prelude.{
  Bytes, List, Option, [], if◌then◌else◌, leb, length, none, some, suc, zero, ℕ, ◌++◌, ◌+◌, ◌∷◌,
}
use skepticoin.Prelude.Result.{Result, err, ok, recursion, value_error, ◌>>=◌, ◌>>◌}

-- `MerkleNode`: without children, or with two.
pub data MerkleNode : Type 0 where
  leaf : ℕ → Option Bytes → MerkleNode
  branch : ℕ → MerkleNode → MerkleNode → Option Bytes → MerkleNode

unfoldable pub node_index : MerkleNode → ℕ
node_index (leaf i v) = i
node_index (branch i l r v) = i

-- `enumerate`, from an index on, as leaves.
unfoldable pub enumerate_leaves : ℕ → List Bytes → List MerkleNode
enumerate_leaves i [] = []
enumerate_leaves i (h ∷ hs) = leaf i (some h) ∷ enumerate_leaves (i + 1) hs

-- One level of the tree: the chunks of two, each joined, and a last chunk of one as it is.
unfoldable pub pair_nodes : List MerkleNode → List MerkleNode
pair_nodes (a ∷ b ∷ rest) = branch (node_index a) a b none ∷ pair_nodes rest
pair_nodes nodes = nodes

-- The recursion of `_get_merkle_tree`. On an empty list it never ends.
unfoldable pub merkle_tree_loop : ℕ → List MerkleNode → Result MerkleNode
merkle_tree_loop zero nodes = err recursion
merkle_tree_loop (suc fuel) (n ∷ []) = ok n
merkle_tree_loop (suc fuel) nodes = merkle_tree_loop fuel (pair_nodes nodes)

-- A level is shorter than the one below it, so its length bounds the recursion.
unfoldable pub get_merkle_tree : List Bytes → Result MerkleNode
get_merkle_tree hashes = merkle_tree_loop (length hashes) (enumerate_leaves 0 hashes)

module _ ⦃c : Crypto⦄ where
  unfoldable pub pair_hashes : List Bytes → List Bytes
  pair_hashes (a ∷ b ∷ rest) = sha256d (a ++ b) ∷ pair_hashes rest
  pair_hashes hashes = hashes

  unfoldable pub merkle_root_loop : ℕ → List Bytes → Result Bytes
  merkle_root_loop zero hashes = err recursion
  merkle_root_loop (suc fuel) (h ∷ []) = ok h
  merkle_root_loop (suc fuel) hashes = merkle_root_loop fuel (pair_hashes hashes)

  unfoldable pub get_merkle_root : List Bytes → Result Bytes
  get_merkle_root hashes = merkle_root_loop (length hashes) hashes

  -- `MerkleNode.hash`
  unfoldable pub node_hash : MerkleNode → Result Bytes
  node_hash (leaf i (some v)) = ok v
  node_hash (leaf i none) = ok (sha256d [])
  node_hash (branch i l r (some v)) = err value_error
  node_hash (branch i l r none) = do a ← node_hash l; b ← node_hash r; ok (sha256d (a ++ b))

  -- The part that the index does not lie in is replaced by its hash.
  unfoldable pub get_proof : MerkleNode → ℕ → Result MerkleNode
  get_proof (leaf i v) j = ok (leaf i v)
  get_proof (branch i l r v) j =
      let go_right = (do
        a ← node_hash l
        b ← get_proof r j
        ok (branch i (leaf (node_index l) (some a)) b none)) in
      let go_left = (do
        b ← node_hash r
        a ← get_proof l j
        ok (branch i a (leaf (node_index r) (some b)) none)) in
      if leb (node_index r) j then go_right else go_left
