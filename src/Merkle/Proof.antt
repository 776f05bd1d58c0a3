-- ===== src/Merkle/Proof.antt =====
-- Proofs in the Merkle tree (skepticoin/merkletree.py).
use skepticoin.Crypto.{Crypto}
use skepticoin.Merkle.{
  MerkleNode, branch, enumerate_leaves, get_proof, leaf, merkle_tree_loop, node_hash, node_index,
  pair_nodes,
}
use skepticoin.Prelude.{
  Bytes, List, Option, [], arith, get_elem?, if◌then◌else◌, leb, length, none, refl, some, suc,
  zero, ℕ, ◌+◌, ◌<◌, ◌∷◌, ◌≡◌, ◌≤◌,
}
use skepticoin.Prelude.Result.{ok}
use mathlib.Core.Path.{subst}
use skepticoin.Crypto.{sha256d}
use skepticoin.Merkle.{get_merkle_root, get_merkle_tree}
use skepticoin.Merkle.Root.{node_hash-get_merkle_tree}
use skepticoin.Prelude.{Bool-cases, ap, false, inl, inr, sym, true, ◌++◌, ◌∙◌}
use skepticoin.Prelude.Result.{ok-injective}

-- The value at the end of the path to an index, by the test of `get_proof`.
unfoldable pub leaf_value : MerkleNode → ℕ → Option Bytes
leaf_value (leaf i v) j = v
leaf_value (branch i l r v) j = if leb (node_index r) j then leaf_value r j else leaf_value l j

-- Values stand at the leaves only, as `get_merkle_tree` builds its nodes.
abbrev pub IsTree : MerkleNode → Type 0
IsTree (leaf i none) = ⊥
IsTree (leaf i (some v)) = Unit
IsTree (branch i l r none) = IsTree l × IsTree r
IsTree (branch i l r (some v)) = ⊥

-- The node holds the hashes at the positions from `lo` to before `hi`, in order.
abbrev pub Covers : List Bytes → ℕ → ℕ → MerkleNode → Type 0
Covers hs lo hi (leaf i none) = ⊥
Covers hs lo hi (leaf i (some v)) = (i ≡ lo) × (hi ≡ lo + 1) × (get_elem? hs lo ≡ some v)
Covers hs lo hi (branch i l r (some v)) = ⊥
Covers hs lo hi (branch i l r none) =
    (i ≡ lo) × (mid : ℕ) × (lo < mid) × (mid < hi) × Covers hs lo mid l × Covers hs mid hi r

abbrev AllCover : List Bytes → ℕ → ℕ → List MerkleNode → Type 0
AllCover hs lo hi [] = lo ≡ hi
AllCover hs lo hi (n ∷ ns) = (mid : ℕ) × (lo < mid) × Covers hs lo mid n × AllCover hs mid hi ns

Covers-node_index :
    (hs : List Bytes) (lo hi : ℕ) (n : MerkleNode) → Covers hs lo hi n → node_index n ≡ lo
unfolding node_index
Covers-node_index hs lo hi (leaf i (some v)) h = h.0
Covers-node_index hs lo hi (branch i l r none) h = h.0
Covers-node_index hs lo hi (leaf i none) h = absurd h
Covers-node_index hs lo hi (branch i l r (some v)) h = absurd h

AllCover-pair_nodes :
    (hs : List Bytes) (lo hi : ℕ) (ns : List MerkleNode)
    → AllCover hs lo hi ns
    → AllCover hs lo hi (pair_nodes ns)
unfolding pair_nodes
AllCover-pair_nodes hs lo hi [] h = h
AllCover-pair_nodes hs lo hi (a ∷ []) h = h
AllCover-pair_nodes hs lo hi (a ∷ b ∷ ns) (m, p, ca, (m', p', cb, rest)) = (
  m',
  omega arith,
  (Covers-node_index hs lo m a ca, m, p, p', ca, cb),
  AllCover-pair_nodes hs m' hi ns rest,
)

AllCover-enumerate :
    (all : List Bytes) (i : ℕ) (hs : List Bytes)
    → ((j : ℕ) → get_elem? hs j ≡ get_elem? all (i + j))
    → AllCover all i (i + length hs) (enumerate_leaves i hs)
unfolding enumerate_leaves
AllCover-enumerate all i [] e = omega arith
AllCover-enumerate all i (h ∷ hs) e = (
  i + 1,
  omega arith,
  (refl, refl, sym (e 0 ∙ ap (get_elem? all) (omega arith))),
  subst (λ k. AllCover all (i + 1) k (enumerate_leaves (i + 1) hs)) (omega arith)
      (AllCover-enumerate all (i + 1) hs (λ j. e (suc j) ∙ ap (get_elem? all) (omega arith))),
)

merkle_tree_loop-Covers :
    (hs : List Bytes) (hi : ℕ) (fuel : ℕ) (ns : List MerkleNode) {t : MerkleNode}
    → AllCover hs 0 hi ns
    → merkle_tree_loop fuel ns ≡ ok t
    → Covers hs 0 hi t
unfolding merkle_tree_loop
merkle_tree_loop-Covers hs hi zero ns h e = cc
merkle_tree_loop-Covers hs hi (suc fuel) [] h e =
    merkle_tree_loop-Covers hs hi fuel (pair_nodes []) (AllCover-pair_nodes hs 0 hi [] h) e
merkle_tree_loop-Covers hs hi (suc fuel) (n ∷ []) (m, _, covers, end) e =
    subst (λ r. Covers hs 0 hi r) (ok-injective e) (subst (λ k. Covers hs 0 k n) end covers)
merkle_tree_loop-Covers hs hi (suc fuel) (a ∷ b ∷ ns) h e =
    merkle_tree_loop-Covers hs hi fuel _ (AllCover-pair_nodes hs 0 hi (a ∷ b ∷ ns) h) e

leaf_value-Covers :
    (hs : List Bytes) (lo hi j : ℕ) (t : MerkleNode)
    → Covers hs lo hi t
    → lo ≤ j
    → j < hi
    → leaf_value t j ≡ get_elem? hs j
unfolding leaf_value
leaf_value-Covers hs lo hi j (leaf i (some v)) (_, e, g) p q =
    sym (ap (get_elem? hs) (omega arith) ∙ g)
leaf_value-Covers hs lo hi j (branch i l r none) (_, m, _, _, cl, cr) p q = ground (
  arith,
  Covers-node_index hs m hi r cr,
  leaf_value-Covers hs lo m j l cl p,
  leaf_value-Covers hs m hi j r cr,
)
leaf_value-Covers hs lo hi j (leaf i none) h p q = absurd h
leaf_value-Covers hs lo hi j (branch i l r (some v)) h p q = absurd h

Covers-IsTree : (hs : List Bytes) (lo hi : ℕ) (t : MerkleNode) → Covers hs lo hi t → IsTree t
Covers-IsTree hs lo hi (leaf i (some v)) h = tt
Covers-IsTree hs lo hi (branch i l r none) (_, m, _, _, cl, cr) =
    (Covers-IsTree hs lo m l cl, Covers-IsTree hs m hi r cr)
Covers-IsTree hs lo hi (leaf i none) h = absurd h
Covers-IsTree hs lo hi (branch i l r (some v)) h = absurd h

get_merkle_tree-Covers :
    (hs : List Bytes) (t : MerkleNode) → get_merkle_tree hs ≡ ok t → Covers hs 0 (length hs) t
unfolding get_merkle_tree
get_merkle_tree-Covers hs t e =
    merkle_tree_loop-Covers hs (length hs) (length hs) (enumerate_leaves 0 hs)
      (subst (λ k. AllCover hs 0 k (enumerate_leaves 0 hs)) (omega arith)
        (AllCover-enumerate hs 0 hs (λ k. ap (get_elem? hs) (omega arith))))
      e

module _ ⦃c : Crypto⦄ where
  node_hash_total : (t : MerkleNode) → IsTree t → (v : Bytes) × (node_hash t ≡ ok v)
  unfolding node_hash
  node_hash_total (leaf i (some v)) h = (v, refl)
  node_hash_total (branch i l r none) h =
      let (a, ea) = node_hash_total l h.0 in
      let (b, eb) = node_hash_total r h.1 in (sha256d (a ++ b), rw (ea, eb) refl)
  node_hash_total (leaf i none) h = absurd h
  node_hash_total (branch i l r (some v)) h = absurd h

  -- What a proof of position `j` in the node `t` has to be.
  pub record IsProofIn (t : MerkleNode) (j : ℕ) (p : MerkleNode) : Type 0 where
    pub found : get_proof t j ≡ ok p
    pub same_hash : node_hash p ≡ node_hash t
    pub same_value : leaf_value p j ≡ leaf_value t j
    pub same_index : node_index p ≡ node_index t

  module _ (i : ℕ) (l r : MerkleNode) (j : ℕ) (a b : Bytes) (hl : node_hash l ≡ ok a)
      (hr : node_hash r ≡ ok b) where
    proof_right :
        (p : MerkleNode)
        → IsProofIn r j p
        → leb (node_index r) j ≡ true
        → IsProofIn (branch i l r none) j (branch i (leaf (node_index l) (some a)) p none)
    unfolding get_proof node_hash leaf_value node_index
    proof_right p h e = record {
      found = rw (e, hl, h.found) refl;
      same_hash = rw (hl, h.same_hash) refl;
      same_value = rw (h.same_index, e) h.same_value;
      same_index = refl;
    }

    proof_left :
        (p : MerkleNode)
        → IsProofIn l j p
        → leb (node_index r) j ≡ false
        → IsProofIn (branch i l r none) j (branch i p (leaf (node_index r) (some b)) none)
    unfolding get_proof node_hash leaf_value node_index
    proof_left p h e = record {
      found = rw (e, hr, h.found) refl;
      same_hash = rw (hr, h.same_hash) refl;
      same_value = rw e h.same_value;
      same_index = refl;
    }

  get_proof_total : (t : MerkleNode) (j : ℕ) → IsTree t → (p : MerkleNode) × IsProofIn t j p
  get_proof_total (leaf i (some v)) j h = (
    leaf i (some v),
    record {
      found = unfold get_proof in refl;
      same_hash = refl;
      same_value = refl;
      same_index = refl;
    },
  )
  get_proof_total (branch i l r none) j h =
      let (a, ea) = node_hash_total l h.0 in
      let (b, eb) = node_hash_total r h.1 in
      elim (Bool-cases (leb (node_index r) j)) [
        | inl e ↦
            (let (p, hp) = get_proof_total r j h.1 in (_, proof_right i l r j a b ea eb p hp e))
        | inr e ↦
            (let (p, hp) = get_proof_total l j h.0 in (_, proof_left i l r j a b ea eb p hp e))
      ]
  get_proof_total (leaf i none) j h = absurd h
  get_proof_total (branch i l r (some v)) j h = absurd h

  -- In the tree over a list of hashes, every position of the list has a proof, whose hash is the
  -- root of the list and which holds, at that position, the hash that the list has there.
  pub get_proof-get_merkle_tree :
      (hs : List Bytes) (t : MerkleNode) (j : ℕ)
      → get_merkle_tree hs ≡ ok t
      → j < length hs
      → (p : MerkleNode) × (get_proof t j ≡ ok p)
        × (node_hash p ≡ get_merkle_root hs)
        × (leaf_value p j ≡ get_elem? hs j)
  get_proof-get_merkle_tree hs t j e lt =
      let covers = get_merkle_tree-Covers hs t e in
      let (p, h) = get_proof_total t j (Covers-IsTree hs 0 (length hs) t covers) in
      (
        p,
        h.found,
        h.same_hash ∙ rw e at (node_hash-get_merkle_tree hs),
        h.same_value ∙ leaf_value-Covers hs 0 (length hs) j t covers (omega arith) lt,
      )
