-- ===== src/Tests/Sync.antt =====
-- The pool and the inventories of a node at concrete inputs.
use skepticoin.CoinState
use skepticoin.CoinState.{CoinState}
use skepticoin.Datatypes.{Block}
use skepticoin.Network.Inventory.{items_for}
use skepticoin.Network.Inventory.Bounds.{items_for-bound}
use skepticoin.Network.Inventory.Synced.{items_for_synced}
use skepticoin.Network.Messages.{GetBlocksMessage, data_block, get_blocks, new_inventory_item}
use skepticoin.Network.Manager.{min}
use skepticoin.Network.Params.{get_blocks_inventory_size}
use skepticoin.Network.Pool.{
  ChainManager, add_transaction_to_pool, get_get_blocks_message, new_chain_manager,
}
use skepticoin.Network.Pool.Valid.{IsPoolValid, after_add, at_start, Reachable-IsPoolValid}
use skepticoin.Prelude.{
  Bytes, List, Option, none, some, [], ◌∷◌, ◌≡◌, ℕ, refl, true, false, length, replicate,
}
use skepticoin.Prelude.Map.{Map}
use skepticoin.Prelude.Result.{ok}
use skepticoin.Tests.Chain.{low, block_at, chain_state}
use skepticoin.Tests.Toy.{hash_of, payment}
use skepticoin.CoinState.{assert_current, by_height_at_head}
use skepticoin.Datatypes.Hash.{block_hash}
use skepticoin.Network.Inventory.{
  find_start, item_at, items_at, items_from, start_after, start_from, start_of,
}
use skepticoin.Network.Pool.{
  caught, count_up, get_recent_block_heights, hashes_at, heights_back, pool_with, squares,
  validate_for_pool,
}
use skepticoin.Prelude.{ltb}
use skepticoin.Prelude.Eq.{list_eq, nat_eq}
use skepticoin.Prelude.Map.{get_item, lookup}
use skepticoin.Consensus.Validate.{
  validate_non_coinbase_transaction_by_itself, add_new_references, check_all, check_references,
  check_signature_class, spendable_value, validate_input_by_itself,
  validate_no_duplicate_output_references_in_transactions,
  validate_non_coinbase_transaction_in_coinstate, validate_outputs, validate_sashimi_range,
  validate_signature_for_spend,
}
use skepticoin.Datatypes.Wire.{
  serialize_transaction, serialize_input, serialize_output_reference, serialize_optional_signature,
  serialize_output,
}
use skepticoin.Serialization.Pack.{pack, pack_ℤ, to_be}
use skepticoin.Serialization.{stream_serialize_list, write_all}
use skepticoin.Serialization.Vlq.{stream_serialize_vlq, write_groups, bit_length, bit_length_from}
use skepticoin.Signing.Wire.{serialize_signature, serialize_public_key}
use skepticoin.Datatypes.{
  input_signable_equivalent, output_reference_beq, references_thin_air,
  transaction_signable_equivalent,
}
use skepticoin.Network.Pool.{validate_at_head}
use skepticoin.Prelude.Int.{◌+ℤ◌}
use skepticoin.Signing.{is_not_signature, validate_public_key, validate_signature}
use skepticoin.Datatypes.Hash.{or_cached}

abbrev base : Block
base = record (block_at 0 (hash_of 0) (hash_of 9) 1_600_000_000 []) {
  cached_hash = some (hash_of 1);
}

abbrev top : Block
top = record (block_at 1 (hash_of 1) (hash_of 9) 1_600_000_100 []) {
  cached_hash = some (hash_of 3);
}

abbrev two_heights : Map ℕ Block
two_heights = (0, base) ∷ (1, top) ∷ []

abbrev two_blocks : CoinState
two_blocks = record {
  block_by_hash = (hash_of 1, base) ∷ (hash_of 3, top) ∷ [];
  unspent_transaction_outs_by_hash = [];
  block_by_height_by_hash = (hash_of 3, two_heights) ∷ [];
  heads = (hash_of 3, top) ∷ [];
  current_chain_hash = some (hash_of 3);
  public_key_balances_by_hash = record { block_by_hash = []; cache = [] };
}

abbrev after_base : GetBlocksMessage
after_base = record { potential_start_hashes = hash_of 1 ∷ []; stop_hash = replicate 32 0 }

items_run : items_for two_blocks after_base ≡ ok (new_inventory_item data_block (hash_of 3) ∷ [])
unfolding items_for find_start start_from start_of start_after items_from items_at item_at lookup
    by_height_at_head assert_current get_item CoinState.head count_up min block_hash or_cached
items_run = refl

items_for-bound_example :
    ltb get_blocks_inventory_size (length (new_inventory_item data_block (hash_of 3) ∷ [])) ≡ false
items_for-bound_example = items_for-bound two_blocks after_base _ items_run

abbrev asks : GetBlocksMessage
asks = record { potential_start_hashes = hash_of 3 ∷ hash_of 1 ∷ []; stop_hash = replicate 32 0 }

asks_run :
    (CoinState.head two_blocks ≡ ok top)
    × (by_height_at_head two_blocks ≡ ok two_heights)
    × (lookup 1 two_heights ≡ some top)
    × (block_hash top ≡ ok (hash_of 3))
    × (lookup (hash_of 3) two_blocks.block_by_hash ≡ some top)
    × (lookup 2 two_heights ≡ none)
    × (get_get_blocks_message (new_chain_manager two_blocks 9) ≡ ok (get_blocks asks))
unfolding lookup by_height_at_head assert_current get_item CoinState.head block_hash or_cached
    get_get_blocks_message hashes_at get_recent_block_heights heights_back count_up squares
asks_run = (refl, refl, refl, refl, refl, refl, refl)

items_for_synced_example : items_for two_blocks asks ≡ ok []
items_for_synced_example =
    items_for_synced (new_chain_manager two_blocks 9) top top two_heights (hash_of 3) asks
      asks_run.0 asks_run.1 asks_run.2 asks_run.3 asks_run.4 asks_run.5 asks_run.6

abbrev started : ChainManager
started = new_chain_manager chain_state 9

abbrev with_payment : ChainManager
with_payment = record started { transaction_pool = payment ∷ [] }

pool_run : add_transaction_to_pool started payment ≡ (ok true, with_payment)
unfolding add_transaction_to_pool pool_with caught validate_for_pool
    validate_non_coinbase_transaction_by_itself serialize_transaction pack stream_serialize_list
    stream_serialize_vlq write_groups bit_length bit_length_from write_all serialize_input
    serialize_output_reference serialize_optional_signature serialize_signature serialize_output
    pack_ℤ serialize_public_key to_be assert_current add_new_references check_all check_references
    check_signature_class spendable_value validate_input_by_itself
    validate_no_duplicate_output_references_in_transactions
    validate_non_coinbase_transaction_in_coinstate validate_outputs validate_sashimi_range
    validate_signature_for_spend input_signable_equivalent output_reference_beq references_thin_air
    transaction_signable_equivalent validate_at_head skepticoin.Prelude.Int.◌+ℤ◌ get_item lookup
    is_not_signature validate_public_key validate_signature
pool_run = refl

Reachable-IsPoolValid_example : IsPoolValid chain_state (payment ∷ [])
Reachable-IsPoolValid_example =
    Reachable-IsPoolValid with_payment
      (after_add payment (ok true) (at_start chain_state 9) pool_run)
