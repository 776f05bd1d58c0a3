-- ===== src/Consensus.antt =====
-- skepticoin/consensus.py: what is shared by the construction and the validation of blocks, and the
-- construction.
pub mod Validate
pub mod Subsidy
pub mod Best
pub mod Checkpoints
pub mod Target
pub mod Seen
pub mod Checks
pub mod Supply
use skepticoin.Crypto
use skepticoin.Datatypes.{output_reference_eq}
use skepticoin.Datatypes.Wire.{transaction_wire}
use skepticoin.CoinState.{CoinState, empty, head}
use skepticoin.Balances.{UnspentOuts}
use skepticoin.CoinState.{outs_at_head}
use skepticoin.Crypto.{Crypto, blake2, scrypt}
use skepticoin.Datatypes.{
  Block, BlockSummary, Input, Output, OutputReference, PowEvidence, Transaction,
  new_output_reference, thin_air_hash,
}
use skepticoin.Datatypes.Hash.{block_hash, transaction_hash}
use skepticoin.Datatypes.Wire.{serialize_block_summary}
use skepticoin.Merkle.{get_merkle_root}
use skepticoin.Params.{
  blocks_between_target_readjustment, chain_sample_count, chain_sample_size,
  chain_sample_total_size, desired_target_readjustment_timespan, initial_subsidy, initial_target,
  subsidy_halving_interval,
}
use skepticoin.Pow.{select_n_k_length_slices_from_chain}
use skepticoin.Prelude.{
  Bytes, List, [], if◌then◌else◌, leb, ltb, none, replicate, some, ℕ, ◌%◌, ◌*◌, ◌++◌, ◌+◌, ◌-◌, ◌/◌,
  ◌==◌, ◌^◌, ◌∷◌,
}
use skepticoin.Prelude.Eq.{list_eq, nat_eq}
use skepticoin.Prelude.Int.{negsuc, pos, sub_ℕ, ℤ, ◌+ℤ◌, ◌-ℤ◌}
use skepticoin.Prelude.Map.{get_item}
use skepticoin.Prelude.Result.{Result, err, key_error, ok, overflow_error, ◌>>=◌, ◌>>◌}
use skepticoin.Serialization.{serialize_list}
use skepticoin.Serialization.Pack.{from_be, to_be}
use skepticoin.Signing.{PublicKey, new_coinbase_data}
use skepticoin.Datatypes.{sum_outputs}

-- `int.to_bytes(32, byteorder='big', signed=False)` of a quotient that may be negative.
unfoldable pub target_bytes : ℤ → Result Bytes
target_bytes (pos n) = ok (to_be 32 (if ltb (2 ^ 256 - 1) n then 2 ^ 256 - 1 else n))
target_bytes (negsuc n) = err overflow_error

-- Python's `//` of a number and a sign by a positive number, rounding down.
unfoldable pub floor_div : ℕ → ℤ → ℕ → ℤ
floor_div a (pos t) d = pos (a * t / d)
floor_div a (negsuc t) d = if a == 0 then pos 0 else negsuc ((a * (t + 1) - 1) / d)

unfoldable pub calculate_new_target : Bytes → ℤ → Result Bytes
calculate_new_target previous_target actual_time_passed =
    target_bytes (
      floor_div (from_be 0 previous_target) actual_time_passed desired_target_readjustment_timespan)

unfoldable pub total_input_value : List Input → UnspentOuts → Result ℤ
total_input_value [] m = ok (pos 0)
total_input_value (i ∷ is) m = do
  o ← get_item i.output_reference m
  rest ← total_input_value is m
  ok (o.value +ℤ rest)

unfoldable pub get_transaction_fee : Transaction → UnspentOuts → Result ℤ
get_transaction_fee t m = do
  paid_in ← total_input_value t.inputs m
  ok (paid_in -ℤ sum_outputs t.outputs)

unfoldable pub get_block_fees : List Transaction → UnspentOuts → Result ℤ
get_block_fees [] m = ok (pos 0)
get_block_fees (t ∷ ts) m = do
  fee ← get_transaction_fee t m
  rest ← get_block_fees ts m
  ok (fee +ℤ rest)

unfoldable pub get_block_subsidy : ℕ → ℕ
get_block_subsidy height =
    let halvings = height / subsidy_halving_interval in
    if leb 64 halvings then 0 else initial_subsidy / 2 ^ halvings

unfoldable pub construct_reference_to_thin_air : Result OutputReference
construct_reference_to_thin_air = new_output_reference thin_air_hash 0

unfoldable pub construct_coinbase_transaction :
    ℕ → List Transaction → UnspentOuts → Bytes → PublicKey → Result Transaction
construct_coinbase_transaction height others m signature key = do
  fees ← get_block_fees others m
  coinbase ← new_coinbase_data height signature
  r ← construct_reference_to_thin_air
  ok (record {
    inputs = record { output_reference = r; signature = some coinbase } ∷ [];
    outputs = record { value = pos (get_block_subsidy height) +ℤ fees; public_key = key } ∷ [];
    cached_hash = none;
  })

module _ ⦃c : Crypto⦄ where
  unfoldable pub transaction_hashes : List Transaction → Result (List Bytes)
  transaction_hashes [] = ok []
  transaction_hashes (t ∷ ts) = do h ← transaction_hash t; hs ← transaction_hashes ts; ok (h ∷ hs)

  unfoldable pub calc_merkle_root_hash : List Transaction → Result Bytes
  calc_merkle_root_hash ts = do hs ← transaction_hashes ts; get_merkle_root hs

  -- A height below the interval would look for a block at a negative height.
  unfoldable pub calc_target : CoinState → ℕ → ℕ → Block → Result Bytes
  calc_target s height current_timestamp previous_block =
      if height % blocks_between_target_readjustment == 0
      then (do
        previous_hash ← block_hash previous_block
        heights ← get_item previous_hash s.block_by_height_by_hash
        start ←
            (if ltb height blocks_between_target_readjustment
              then err key_error
              else get_item (height - blocks_between_target_readjustment) heights)
        calculate_new_target previous_block.target (sub_ℕ current_timestamp start.timestamp))
      else ok previous_block.target

  unfoldable pub construct_minable_summary_genesis : List Transaction → ℕ → ℕ → Result BlockSummary
  construct_minable_summary_genesis ts current_timestamp nonce = do
    root ← calc_merkle_root_hash ts
    ok (record {
      height = 0;
      previous_block_hash = thin_air_hash;
      merkle_root_hash = root;
      timestamp = current_timestamp;
      target = initial_target;
      nonce = nonce;
    })

  unfoldable pub construct_minable_summary :
      CoinState → List Transaction → ℕ → ℕ → Result BlockSummary
  construct_minable_summary s ts current_timestamp nonce = elim s.current_chain_hash [
    | none ↦ construct_minable_summary_genesis ts current_timestamp nonce
    | some current ↦ (do
      previous_block ← head s
      root ← calc_merkle_root_hash ts
      target ← calc_target s (previous_block.height + 1) current_timestamp previous_block
      ok (record {
        height = previous_block.height + 1;
        previous_block_hash = current;
        merkle_root_hash = root;
        timestamp = current_timestamp;
        target = target;
        nonce = nonce;
      }))
  ]

  -- `current_height.to_bytes(8, byteorder='big')`
  unfoldable pub construct_summary_hash : BlockSummary → ℕ → Result Bytes
  construct_summary_hash summary current_height = do
    b ← serialize_block_summary summary
    (if ltb current_height (256 ^ 8)
        then ok (scrypt b (to_be 8 current_height))
        else err overflow_error)

  unfoldable pub get_block_by_height : CoinState → BlockSummary → ℕ → Result Block
  get_block_by_height s summary h = do
    heights ← get_item summary.previous_block_hash s.block_by_height_by_hash
    get_item h heights

  unfoldable pub chain_sample_for : Bytes → CoinState → BlockSummary → ℕ → Result Bytes
  chain_sample_for summary_hash s summary current_height =
      if current_height == 0
      then ok (replicate chain_sample_total_size 0)
      else select_n_k_length_slices_from_chain summary_hash current_height
          (get_block_by_height s summary) chain_sample_count chain_sample_size

  unfoldable pub construct_pow_evidence_after_scrypt :
      Bytes → CoinState → BlockSummary → ℕ → List Transaction → Result PowEvidence
  construct_pow_evidence_after_scrypt summary_hash s summary current_height ts = do
    sample ← chain_sample_for summary_hash s summary current_height
    serialized ← serialize_list ts
    ok (record {
      summary_hash = summary_hash;
      chain_sample = sample;
      block_hash = blake2 (summary_hash ++ (sample ++ serialized));
    })

  unfoldable pub construct_pow_evidence :
      CoinState → BlockSummary → ℕ → List Transaction → Result PowEvidence
  construct_pow_evidence s summary current_height ts = do
    summary_hash ← construct_summary_hash summary current_height
    construct_pow_evidence_after_scrypt summary_hash s summary current_height ts

  unfoldable pub construct_block_pow_evidence_input :
      CoinState
      → List Transaction
      → PublicKey
      → ℕ
      → Bytes
      → ℕ
      → Result (BlockSummary × ℕ × List Transaction)
  construct_block_pow_evidence_input s others key current_timestamp random_data nonce = do
    previous_block ← head s
    outs ← outs_at_head s
    coinbase ←
        construct_coinbase_transaction (previous_block.height + 1) others outs random_data key
    summary ← construct_minable_summary s (coinbase ∷ others) current_timestamp nonce
    ok (summary, previous_block.height + 1, coinbase ∷ others)

  unfoldable pub construct_block_for_mining :
      CoinState → List Transaction → PublicKey → ℕ → Bytes → ℕ → Result Block
  construct_block_for_mining s others key current_timestamp random_data nonce = do
    r ← construct_block_pow_evidence_input s others key current_timestamp random_data nonce
    evidence ← construct_pow_evidence s r.0 r.1 r.2
    ok (record {
      header = record { summary = r.0; pow_evidence = evidence };
      transactions = r.2;
      cached_hash = none;
    })

  unfoldable pub construct_block_for_mining_genesis :
      List Transaction → PublicKey → ℕ → Bytes → ℕ → Result Block
  construct_block_for_mining_genesis others key current_timestamp random_data nonce = do
    coinbase ← construct_coinbase_transaction 0 others [] random_data key
    summary ← construct_minable_summary empty (coinbase ∷ others) current_timestamp nonce
    evidence ← construct_pow_evidence empty summary 0 (coinbase ∷ others)
    ok (record {
      header = record { summary = summary; pow_evidence = evidence };
      transactions = coinbase ∷ others;
      cached_hash = none;
    })
