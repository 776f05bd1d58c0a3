-- ===== src/Tests/Codec.antt =====
-- The byte form and the Merkle tree at concrete inputs.
use skepticoin.Tests.Toy.{toy}
use skepticoin.Datatypes.Hash.{block_hash, transaction_hash}
use skepticoin.Datatypes.HashLaws.{block_hash-reload, transaction_hash-reload}
use skepticoin.Datatypes.RoundTrip.{BlockFits, TransactionFits, block-RoundTrips, reload_block}
use skepticoin.Datatypes.Wire.{deserialize_block, serialize_block}
use skepticoin.Merkle.{
  MerkleNode, branch, enumerate_leaves, get_merkle_root, get_merkle_tree, get_proof, leaf,
  merkle_tree_loop, node_hash, node_index, pair_nodes,
}
use skepticoin.Merkle.Proof.{get_proof-get_merkle_tree, leaf_value}
use skepticoin.Merkle.Root.{get_merkle_root_total, node_hash-get_merkle_tree}
use skepticoin.Prelude.{Bytes, List, [], arith, get_elem?, none, refl, replicate, some, ◌∷◌, ◌≡◌}
use skepticoin.Prelude.Result.{err, ok, struct_error, ◌>>=◌}
use skepticoin.Serialization.Pack.{pack, to_be}
use skepticoin.Serialization.RoundTrip.{RoundTrips}
use skepticoin.Serialization.Vlq.{
  bit_length, bit_length_from, stream_deserialize_vlq, stream_serialize_vlq, write_groups,
}
use skepticoin.Serialization.VlqLaws.{vlq-RoundTrips}
use skepticoin.Signing.{coinbase_data, new_coinbase_data}
use skepticoin.Signing.RoundTrip.{coinbase_data_256}
use skepticoin.Signing.Wire.{serialize_signature}
use skepticoin.Tests.Toy.{bob, hash_of, payment, reward, small_block}
use skepticoin.Datatypes.{Block, Transaction}
use skepticoin.Datatypes.Wire.{deserialize_transaction, serialize_transaction}
use skepticoin.Prelude.{◌++◌}

vlq_127 : stream_serialize_vlq 300 ≡ ok (130 ∷ 44 ∷ [])
unfolding stream_serialize_vlq write_groups bit_length bit_length_from pack to_be
vlq_127 = refl

vlq-RoundTrips_example :
    RoundTrips (stream_serialize_vlq 1234567890) stream_deserialize_vlq 1234567890
vlq-RoundTrips_example = vlq-RoundTrips 1234567890

small_block-BlockFits : BlockFits small_block
small_block-BlockFits = (
  (
    record {
      previous = refl;
      merkle_root = refl;
      timestamp = omega arith;
      target = refl;
      nonce = omega arith;
    },
    record { summary_hash = refl; chain_sample = refl; block_hash = refl },
  ),
  (reward_fits, (payment_fits, tt)),
)
  where
    reward_fits : TransactionFits (reward 163001 bob)
    reward_fits = (
      (((refl, omega arith), _, refl, (omega arith, omega arith)), tt),
      (((_, refl, omega arith), refl), tt),
    )

    payment_fits : TransactionFits payment
    payment_fits = (
      (((refl, omega arith), _, refl, refl), tt),
      (((_, refl, omega arith), refl), (((_, refl, omega arith), refl), tt)),
    )

block-RoundTrips_example :
    RoundTrips (serialize_block small_block) deserialize_block (reload_block small_block)
block-RoundTrips_example = block-RoundTrips small_block small_block-BlockFits

transaction_hash-reload_example :
    (bytes : Bytes) × (t : Transaction) × (serialize_transaction payment ≡ ok bytes)
    × (deserialize_transaction (bytes ++ (1 ∷ [])) ≡ ok (t, 1 ∷ []))
    × (transaction_hash t ≡ transaction_hash payment)
transaction_hash-reload_example =
    transaction_hash-reload payment (1 ∷ []) (small_block-BlockFits.1.1.0) refl

block_hash-reload_example :
    (bytes : Bytes) × (b : Block) × (serialize_block small_block ≡ ok bytes)
    × (deserialize_block (bytes ++ []) ≡ ok (b, []))
    × (block_hash b ≡ block_hash small_block)
block_hash-reload_example = block_hash-reload small_block [] small_block-BlockFits refl

coinbase_data_256_example :
    (new_coinbase_data 7 (replicate 256 1) ≡ ok (coinbase_data 7 (replicate 256 1)))
    × (serialize_signature (coinbase_data 7 (replicate 256 1)) ≡ err struct_error)
coinbase_data_256_example = coinbase_data_256 7 (replicate 256 1) (omega arith) refl

abbrev three : List Bytes
three = hash_of 1 ∷ hash_of 2 ∷ hash_of 3 ∷ []

abbrev three_tree : MerkleNode
three_tree =
    branch 0 (branch 0 (leaf 0 (some (hash_of 1))) (leaf 1 (some (hash_of 2))) none)
      (leaf 2 (some (hash_of 3))) none

three_tree_lem : get_merkle_tree three ≡ ok three_tree
unfolding get_merkle_tree merkle_tree_loop enumerate_leaves pair_nodes node_index
three_tree_lem = refl

node_hash-get_merkle_tree_example : (get_merkle_tree three >>= node_hash) ≡ get_merkle_root three
node_hash-get_merkle_tree_example = node_hash-get_merkle_tree three

get_merkle_root_total_example :
    (root : Bytes) × (get_merkle_root (hash_of 1 ∷ hash_of 2 ∷ []) ≡ ok root)
get_merkle_root_total_example = get_merkle_root_total (hash_of 1) (hash_of 2 ∷ [])

get_proof-get_merkle_tree_example :
    (p : MerkleNode) × (get_proof three_tree 1 ≡ ok p)
    × (node_hash p ≡ get_merkle_root three)
    × (leaf_value p 1 ≡ get_elem? three 1)
get_proof-get_merkle_tree_example =
    get_proof-get_merkle_tree three three_tree 1 three_tree_lem (omega arith)
