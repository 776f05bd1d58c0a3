-- ===== src/Tests/Spending.antt =====
-- A wallet with one key asks for more than it has.
use skepticoin.Datatypes.{output_reference_eq}
use skepticoin.Signing.{public_key_eq}
use skepticoin.Tests.Chain.{low, genesis, state_of}
use skepticoin.Tests.Toy.{alice, bob}
use skepticoin.CoinState.{CoinState, empty}
use skepticoin.Wallet.Spend.{Wallet, Collected, start}
use skepticoin.Balances.{UnspentOuts}
use skepticoin.CoinState.{add_block_no_validation, balances_at_head, outs_at_head}
use skepticoin.Prelude.{[], replicate, ◌∷◌}
use skepticoin.Prelude.Int.{pos}
use skepticoin.Wallet.Spend.{collect_keys}
use skepticoin.Balances.{
  add_balance, add_balances, add_outputs, pkb_apply_all, pkb_apply_block, pkb_apply_transaction,
  remove_balances, remove_inputs, uto_apply_all, uto_apply_block, uto_apply_transaction, without,
}
use skepticoin.Balances.Chain.{
  balances_of_chain, chain_at_hash, chain_from, get_balances, new_public_key_balances,
  public_key_balances_by_hash,
}
use skepticoin.Cheating.{known_hashes, max_key, max_known_hash_height}
use skepticoin.CoinState.{
  assert_current, current_with, heads_with, heights_with, is_genesis, outs_before,
}
use skepticoin.Consensus.{
  calc_merkle_root_hash, calc_target, chain_sample_for, construct_pow_evidence,
  construct_pow_evidence_after_scrypt, construct_summary_hash, get_block_by_height, get_block_fees,
  get_block_subsidy, get_transaction_fee, total_input_value, transaction_hashes,
}
use skepticoin.Consensus.Validate.{
  add_block, add_new_references, bytes_lt, check_all, check_coinbase_data, check_coinbase_inputs,
  check_references, check_signature_class, check_transactions, coinbase_height, mem_transaction,
  spendable_value, validate_after_checkpoints, validate_block_by_itself,
  validate_block_header_by_itself, validate_block_in_coinstate, validate_block_summary_in_coinstate,
  validate_coinbase_transaction_by_itself, validate_coinbase_transaction_in_coinstate,
  validate_input_by_itself, validate_no_duplicate_output_references_in_transactions,
  validate_no_duplicate_transactions, validate_non_coinbase_transaction_by_itself,
  validate_non_coinbase_transaction_in_coinstate, validate_outputs, validate_proof_of_work,
  validate_sashimi_range, validate_signature_for_spend, validate_transactions_by_itself,
}
use skepticoin.Crypto.{blake2, scrypt, sha256d}
use skepticoin.Datatypes.{
  OutputReference, all_eq, block_header_eq, block_summary_eq, get_total_work, input_eq,
  input_signable_equivalent, new_output_reference, optional_signature_eq, output_eq,
  output_reference_beq, pow_evidence_eq, references_thin_air, transaction_eq,
  transaction_signable_equivalent,
}
use skepticoin.Datatypes.Hash.{
  block_hash, block_header_hash, block_summary_hash, or_cached, transaction_hash,
}
use skepticoin.Datatypes.Wire.{
  serialize_block, serialize_block_header, serialize_block_summary, serialize_input,
  serialize_optional_signature, serialize_output, serialize_output_reference,
  serialize_pow_evidence, serialize_transaction,
}
use skepticoin.Merkle.{get_merkle_root, merkle_root_loop, pair_hashes}
use skepticoin.Pow.{
  select_block_height, select_block_slice, select_n_k_length_slices_from_chain,
  select_slice_from_chain, slice_loop, slices_loop,
}
use skepticoin.Prelude.{none, refl, ◌++◌, ◌≡◌}
use skepticoin.Prelude.Eq.{list_eq, nat_eq}
use skepticoin.Prelude.Int.{◌+ℤ◌, ◌-ℤ◌}
use skepticoin.Prelude.Map.{contains, del_item, erase, get_item, insert, lookup}
use skepticoin.Prelude.Result.{err, ok, plain_exception}
use skepticoin.Serialization.{serialize, serialize_list, stream_serialize_list, write_all}
use skepticoin.Serialization.Pack.{from_be, pack, pack_ℤ, to_be}
use skepticoin.Serialization.Vlq.{bit_length, bit_length_from, stream_serialize_vlq, write_groups}
use skepticoin.Signing.{
  is_not_signature, new_coinbase_data, new_public_key, new_secp256k1_signature, public_key_beq,
  signature_eq, validate_public_key, validate_signature,
}
use skepticoin.Signing.Wire.{serialize_public_key, serialize_signature}
use skepticoin.Wallet.Spend.{collect_references, create_spend_transaction, more, references_of}
use skepticoin.Wallet.Spend.Stuck.{create_spend_transaction_stuck}

abbrev alone : CoinState
alone = state_of (add_block_no_validation empty genesis)

abbrev wallet : Wallet
wallet = record {
  keypairs = (alice.public_key, replicate 32 1) ∷ [];
  unused_public_keys = [];
  public_key_annotations = [];
  spent_transaction_outputs = [];
}

abbrev reference : OutputReference
reference = record { hash = replicate 12 0 ++ replicate 18 28 ++ (21 ∷ 7 ∷ []); index = 0 }

abbrev outs : UnspentOuts
outs = (reference, record { value = pos 1000000000; public_key = alice }) ∷ []

abbrev left : Collected
left = record {
  spent = reference ∷ [];
  inputs = record { output_reference = reference; signature = none } ∷ [];
  value = pos 1000000000;
}

spending_runs :
    (outs_at_head alone ≡ ok outs)
    × (collect_keys outs (balances_at_head alone).0 (pos 2000000000) wallet.keypairs (start [])
        ≡ more left)
unfolding remove_inputs without add_outputs uto_apply_transaction uto_apply_all uto_apply_block
    is_genesis outs_before heights_with heads_with current_with add_block_no_validation
    total_input_value get_transaction_fee get_block_fees get_block_subsidy transaction_hashes
    calc_merkle_root_hash calc_target construct_summary_hash get_block_by_height chain_sample_for
    construct_pow_evidence_after_scrypt construct_pow_evidence check_all validate_sashimi_range
    validate_outputs add_new_references check_signature_class validate_input_by_itself
    validate_non_coinbase_transaction_by_itself check_coinbase_data check_coinbase_inputs
    validate_coinbase_transaction_by_itself bytes_lt validate_proof_of_work coinbase_height
    check_references validate_no_duplicate_output_references_in_transactions mem_transaction
    check_transactions validate_no_duplicate_transactions validate_block_header_by_itself
    validate_transactions_by_itself validate_block_by_itself
    validate_coinbase_transaction_in_coinstate validate_signature_for_spend spendable_value
    validate_non_coinbase_transaction_in_coinstate validate_block_summary_in_coinstate
    validate_after_checkpoints validate_block_in_coinstate add_block sha256d scrypt blake2
    new_output_reference references_thin_air output_reference_beq output_eq optional_signature_eq
    input_eq all_eq transaction_eq pow_evidence_eq block_summary_eq block_header_eq
    input_signable_equivalent transaction_signable_equivalent get_total_work
    serialize_output_reference serialize_optional_signature serialize_input serialize_output
    serialize_transaction serialize_pow_evidence serialize_block_summary serialize_block_header
    serialize_block or_cached transaction_hash block_summary_hash block_header_hash block_hash
    new_public_key new_coinbase_data new_secp256k1_signature is_not_signature signature_eq
    public_key_beq validate_public_key validate_signature serialize_public_key serialize_signature
    pair_hashes merkle_root_loop get_merkle_root select_block_height slice_loop select_block_slice
    select_slice_from_chain slices_loop select_n_k_length_slices_from_chain serialize write_all
    stream_serialize_list serialize_list to_be from_be pack pack_ℤ bit_length_from bit_length
    write_groups stream_serialize_vlq lookup contains get_item insert erase del_item ◌+ℤ◌ ◌-ℤ◌
    max_known_hash_height max_key known_hashes outs_at_head assert_current balances_at_head
    get_balances public_key_balances_by_hash balances_of_chain chain_at_hash chain_from
    pkb_apply_block pkb_apply_all pkb_apply_transaction add_balances add_balance remove_balances
    collect_keys collect_references references_of new_public_key_balances
spending_runs = (refl, refl)

create_spend_transaction_stuck_example :
    (create_spend_transaction wallet alone (pos 2000000000) (pos 0) bob alice
      ≡ (err plain_exception, record wallet { spent_transaction_outputs = reference ∷ [] }))
    × (create_spend_transaction
          (record wallet { spent_transaction_outputs = reference ∷ [] })
          alone
          (pos 1)
          (pos 0)
          bob
          alice
        ≡ (err plain_exception, record wallet { spent_transaction_outputs = reference ∷ [] }))
unfolding ◌+ℤ◌
create_spend_transaction_stuck_example =
    create_spend_transaction_stuck wallet alone outs (pos 2000000000) (pos 0) (pos 1) (pos 0) bob
      alice bob alice left spending_runs.0 spending_runs.1
