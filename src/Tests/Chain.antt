-- ===== src/Tests/Chain.antt =====
-- A chain after the checkpoints to which a block with a payment is added.
use skepticoin.Datatypes.{output_reference_eq}
use mathlib.Core.Path.{subst₂}
use native.Mathlib.Numerals.{add-one}
use skepticoin.Crypto.{Crypto, verified}
use skepticoin.Datatypes.{Block, Transaction}
use skepticoin.CoinState.{CoinState}
use skepticoin.Balances.{UnspentOuts}
use skepticoin.Tests.Toy.{alice, bob, hash_of, reward, payment}
use skepticoin.Consensus.{calc_merkle_root_hash}
use skepticoin.Datatypes.Wire.{serialize_block}
use skepticoin.Prelude.{Bytes, List, [], none, replicate, some, ℕ, ◌*◌, ◌++◌, ◌∷◌}
use skepticoin.Prelude.Int.{pos}
use skepticoin.Prelude.Result.{Result}
use skepticoin.Serialization.Pack.{from_be, to_be}
use skepticoin.Consensus.{construct_pow_evidence}
use skepticoin.Consensus.Validate.{add_block}
use skepticoin.Datatypes.Hash.{block_hash}
use skepticoin.Balances.{
  add_outputs, remove_inputs, uto_apply_all, uto_apply_block, uto_apply_transaction, without,
}
use skepticoin.CoinState.{
  add_block_no_validation, current_with, heads_with, heights_with, is_genesis, outs_before,
}
use skepticoin.Consensus.{
  calc_target, chain_sample_for, construct_pow_evidence_after_scrypt, construct_summary_hash,
  get_block_by_height, get_block_fees, get_block_subsidy, get_transaction_fee, total_input_value,
  transaction_hashes,
}
use skepticoin.Consensus.Validate.{
  add_new_references, bytes_lt, check_all, check_coinbase_data, check_coinbase_inputs,
  check_references, check_signature_class, check_transactions, coinbase_height, mem_transaction,
  spendable_value, validate_after_checkpoints, validate_block_by_itself,
  validate_block_header_by_itself, validate_block_in_coinstate, validate_block_summary_in_coinstate,
  validate_coinbase_transaction_by_itself, validate_coinbase_transaction_in_coinstate,
  validate_input_by_itself, validate_no_duplicate_output_references_in_transactions,
  validate_no_duplicate_transactions, validate_non_coinbase_transaction_by_itself,
  validate_non_coinbase_transaction_in_coinstate, validate_outputs, validate_proof_of_work,
  validate_sashimi_range, validate_signature_for_spend, validate_transactions_by_itself,
}
use skepticoin.Crypto.{blake2, scrypt, sha256d}
use skepticoin.Datatypes.{
  all_eq, block_header_eq, block_summary_eq, get_total_work, input_eq, input_signable_equivalent,
  new_output_reference, optional_signature_eq, output_eq, output_reference_beq, pow_evidence_eq,
  references_thin_air, transaction_eq, transaction_signable_equivalent,
}
use skepticoin.Datatypes.Hash.{block_header_hash, block_summary_hash, or_cached, transaction_hash}
use skepticoin.Datatypes.Wire.{
  serialize_block_header, serialize_block_summary, serialize_input, serialize_optional_signature,
  serialize_output, serialize_output_reference, serialize_pow_evidence, serialize_transaction,
}
use skepticoin.Merkle.{get_merkle_root, merkle_root_loop, pair_hashes}
use skepticoin.Pow.{
  select_block_height, select_block_slice, select_n_k_length_slices_from_chain,
  select_slice_from_chain, slice_loop, slices_loop,
}
use skepticoin.Prelude.{Bool, arith, false, refl, true, ◌≡◌}
use skepticoin.Prelude.Eq.{list_eq, nat_eq}
use skepticoin.Prelude.Map.{contains, del_item, erase, get_item, insert, lookup}
use skepticoin.Prelude.Result.{err, ok}
use skepticoin.Serialization.{serialize, serialize_list, stream_serialize_list, write_all}
use skepticoin.Serialization.Pack.{pack, pack_ℤ}
use skepticoin.Serialization.Vlq.{bit_length, bit_length_from, stream_serialize_vlq, write_groups}
use skepticoin.Signing.{
  is_not_signature, new_coinbase_data, new_public_key, new_secp256k1_signature, public_key_beq,
  signature_eq, validate_public_key, validate_signature,
}
use skepticoin.Signing.Wire.{serialize_public_key, serialize_signature}
use mathlib.Core.Path.{subst}
use skepticoin.Balances.Unspent.{IsSound, total}
use skepticoin.Cheating.{known_hashes, max_key, max_known_hash_height}
use skepticoin.CoinState.Reset.{heights_reset}
use skepticoin.Consensus.Best.{IsBest, add_block-IsBest}
use skepticoin.Consensus.Subsidy.{supply}
use skepticoin.Consensus.Supply.{Grows, IsSolvent, add, money_limit, same}
use skepticoin.Params.{max_sashimi}
use skepticoin.Prelude.{sym, ◌+◌, ◌<◌, ◌∙◌, ◌≤◌}
use skepticoin.Prelude.Int.{◌+ℤ◌, ◌-ℤ◌, ◌≤ℤ◌}
use skepticoin.Prelude.Result.{ok-injective}
use skepticoin.Datatypes.{thin_air_hash}
use skepticoin.Prelude.{◌≢◌}
use skepticoin.Prelude.Eq.{≟_iff, ◌≟◌}
use skepticoin.Balances.Unspent.{outputs_all, references_all, uto_apply_block_bound, value_of}
use skepticoin.Consensus.Checkpoints.{
  AllAtCheckpoint, AtCheckpoint, checkpoints_agree, unchanged, with_block,
}
use skepticoin.Datatypes.{sum_outputs}
use skepticoin.Prelude.Map.Except.{sum_except}
use skepticoin.Humans.{char_codes, computer}
use skepticoin.Prelude.Result.{Error}

-- Hashes of which the first 12 bytes are zero, so that each sample starts at the first block.
abbrev pub low_hash : Bytes → Bytes
low_hash b = replicate 12 0 ++ to_be 20 (from_be 1 b * 257)

instance abbrev pub low : Crypto
low = record {
  sha256 = low_hash;
  blake2b = λ b n. replicate n 3;
  scrypt_hash = λ p s n r q l. replicate l 0;
  verify = λ key signature message. verified;
  sign = λ k m. none;
  py_hash = from_be 0;
}

abbrev pub block_at : ℕ → Bytes → Bytes → ℕ → List Transaction → Block
block_at height previous root timestamp ts = record {
  header = record {
    summary = record {
      height = height;
      previous_block_hash = previous;
      merkle_root_hash = root;
      timestamp = timestamp;
      target = replicate 32 255;
      nonce = 42;
    };
    pow_evidence = record {
      summary_hash = replicate 32 0;
      chain_sample = replicate 32 0;
      block_hash = replicate 32 3;
    };
  };
  transactions = ts;
  cached_hash = none;
}

abbrev pub first_block : Block
first_block = block_at 0 (hash_of 0) (hash_of 0) 1_600_000_000 []

-- The hash of the last checkpoint.
abbrev checkpoint_hash : Bytes
checkpoint_hash =
    0 ∷ 4 ∷ 255 ∷ 174 ∷ 82 ∷ 168 ∷ 244 ∷ 32 ∷ 136 ∷ 211 ∷ 204 ∷ 194 ∷ 79 ∷ 15 ∷ 4 ∷ 177 ∷ 20 ∷ 137
    ∷ 102 ∷ 99 ∷ 41 ∷ 192 ∷ 214 ∷ 50 ∷ 30 ∷ 186 ∷ 240 ∷ 195 ∷ 185 ∷ 205 ∷ 81 ∷ 64 ∷ []

-- A block that has that hash in its cache.
abbrev pub parent : Block
parent = record (block_at 163000 (hash_of 8) (hash_of 9) 1_699_999_000 (reward 163000 alice ∷ [])) {
  cached_hash = some checkpoint_hash;
}

abbrev outs_at_parent : UnspentOuts
outs_at_parent =
    (record { hash = hash_of 5; index = 0 }, record { value = pos 100; public_key = alice }) ∷ []

abbrev pub chain_state : CoinState
chain_state = record {
  block_by_hash = (hash_of 1, parent) ∷ [];
  unspent_transaction_outs_by_hash = (hash_of 1, outs_at_parent) ∷ [];
  block_by_height_by_hash = (hash_of 1, (0, first_block) ∷ (163000, parent) ∷ []) ∷ [];
  heads = (hash_of 1, parent) ∷ [];
  current_chain_hash = some (hash_of 1);
  public_key_balances_by_hash = record { block_by_hash = (hash_of 1, parent) ∷ []; cache = [] };
}

abbrev pub new_block : Block
new_block =
    block_at 163001 (hash_of 1) (replicate 12 0 ++ replicate 16 112 ++ (105 ∷ 77 ∷ 35 ∷ 7 ∷ []))
      1_700_000_000 (reward 163001 bob ∷ payment ∷ [])

abbrev pub new_hash : Bytes
new_hash = replicate 12 0 ++ replicate 18 12 ++ (9 ∷ 3 ∷ [])

abbrev pub is_ok : Result CoinState → Bool
is_ok (ok s) = true
is_ok (err e) = false

abbrev pub state_of : Result CoinState → CoinState
state_of (ok s) = s
state_of (err e) = chain_state

pub ok-state_of : (r : Result CoinState) → is_ok r ≡ true → r ≡ ok (state_of r)
ok-state_of (ok s) e = refl
ok-state_of (err x) e = absurd (ground (arith, e))

abbrev new_state : CoinState
new_state = state_of (add_block chain_state new_block 1_700_000_000)

abbrev coinbase_hash : Bytes
coinbase_hash = replicate 12 0 ++ replicate 18 36 ++ (27 ∷ 9 ∷ [])

abbrev payment_hash : Bytes
payment_hash = replicate 12 0 ++ replicate 18 28 ++ (21 ∷ 7 ∷ [])

abbrev new_outs : UnspentOuts
new_outs =
    (
      record { hash = coinbase_hash; index = 0 },
      record { value = pos 1000000000; public_key = bob },
    )
    ∷ (record { hash = payment_hash; index = 0 }, record { value = pos 30; public_key = bob })
    ∷ (record { hash = payment_hash; index = 1 }, record { value = pos 65; public_key = alice })
    ∷ []

abbrev pub genesis : Block
genesis = block_at 7 (replicate 32 0) (hash_of 9) 1_600_000_000 (reward 7 alice ∷ [])

abbrev reset_state : CoinState
reset_state = state_of (add_block_no_validation chain_state genesis)

runs :
    (is_ok (add_block chain_state new_block 1_700_000_000) ≡ true)
    × (lookup new_hash new_state.block_by_hash ≡ some new_block)
    × (lookup new_hash new_state.unspent_transaction_outs_by_hash ≡ some new_outs)
    × (block_hash new_block ≡ ok new_hash)
    × (uto_apply_block outs_at_parent new_block ≡ ok new_outs)
    × (is_ok (add_block_no_validation chain_state genesis) ≡ true)
    × (block_hash genesis ≡ ok new_hash)
    × (max_known_hash_height < 163001)
    × (lookup (hash_of 1) new_state.block_by_hash ≡ some parent)
unfolding remove_inputs without add_outputs uto_apply_transaction uto_apply_all uto_apply_block
    is_genesis outs_before heights_with heads_with current_with add_block_no_validation
    total_input_value get_transaction_fee get_block_fees get_block_subsidy transaction_hashes
    calc_merkle_root_hash calc_target construct_summary_hash get_block_by_height chain_sample_for
    construct_pow_evidence_after_scrypt construct_pow_evidence check_all validate_sashimi_range
    validate_outputs add_new_references check_signature_class validate_input_by_itself
    validate_non_coinbase_transaction_by_itself check_coinbase_data check_coinbase_inputs
    validate_coinbase_transaction_by_itself bytes_lt validate_proof_of_work coinbase_height
    check_references validate_no_duplicate_output_references_in_transactions mem_transaction
    check_transactions validate_no_duplicate_transactions validate_block_header_by_itself
    validate_transactions_by_itself validate_block_by_itself
    validate_coinbase_transaction_in_coinstate validate_signature_for_spend spendable_value
    validate_non_coinbase_transaction_in_coinstate validate_block_summary_in_coinstate
    validate_after_checkpoints validate_block_in_coinstate add_block sha256d scrypt blake2
    new_output_reference references_thin_air output_reference_beq output_eq optional_signature_eq
    input_eq all_eq transaction_eq pow_evidence_eq block_summary_eq block_header_eq
    input_signable_equivalent transaction_signable_equivalent get_total_work
    serialize_output_reference serialize_optional_signature serialize_input serialize_output
    serialize_transaction serialize_pow_evidence serialize_block_summary serialize_block_header
    serialize_block or_cached transaction_hash block_summary_hash block_header_hash block_hash
    new_public_key new_coinbase_data new_secp256k1_signature is_not_signature signature_eq
    public_key_beq validate_public_key validate_signature serialize_public_key serialize_signature
    pair_hashes merkle_root_loop get_merkle_root select_block_height slice_loop select_block_slice
    select_slice_from_chain slices_loop select_n_k_length_slices_from_chain serialize write_all
    stream_serialize_list serialize_list to_be from_be pack pack_ℤ bit_length_from bit_length
    write_groups stream_serialize_vlq lookup contains get_item insert erase del_item ◌+ℤ◌ ◌-ℤ◌
    max_known_hash_height max_key known_hashes
runs = (refl, refl, refl, refl, refl, refl, refl, omega arith, refl)

added : add_block chain_state new_block 1_700_000_000 ≡ ok new_state
added = ok-state_of (add_block chain_state new_block 1_700_000_000) runs.0

differ : (a b : Bytes) → (a ≟ b) ≡ false → a ≢ b
differ a b h = ground (arith, ≟_iff a b)

only_one : {V : Type 0} (k h : Bytes) (v : V) {w : V} → lookup h ((k, v) ∷ []) ≡ some w → v ≡ w
unfolding lookup
only_one k h v e = ground (arith, e)

subsidy_below : (h : ℕ) → get_block_subsidy h ≤ supply (h + 1)
unfolding supply
subsidy_below h = rw add-one (omega arith)

chain_state-IsSolvent : IsSolvent chain_state
unfolding get_block_subsidy lookup output_reference_beq ◌+ℤ◌
chain_state-IsSolvent = record {
  no_thin_air = refl;
  at = λ h b m fb fm.
      subst₂ (λ x y. IsSound y × (total y ≤ℤ pos (supply (x.height + 1))))
        (only_one (hash_of 1) h parent fb) (only_one (hash_of 1) h outs_at_parent fm)
        (((refl, tt), (omega arith, tt)), omega (arith, subsidy_below 163000));
}

grown : Grows chain_state new_state
grown =
    add new_block 1_700_000_000 same runs.7
      (λ e. differ new_hash thin_air_hash refl (ok-injective (sym runs.3 ∙ e))) added

money_limit_example : total new_outs ≤ℤ pos max_sashimi
money_limit_example =
    money_limit chain_state new_state new_hash new_block new_outs chain_state-IsSolvent grown runs.1
      runs.2

chain_state-IsBest : IsBest chain_state
unfolding lookup
chain_state-IsBest = record {
  current = hash_of 1;
  head = parent;
  current_set = refl;
  head_found = refl;
  most = λ h b e.
      subst (λ x. get_total_work x ≤ get_total_work parent) (only_one (hash_of 1) h parent e)
        (omega arith);
}

no_new_block : lookup new_hash chain_state.block_by_hash ≡ none
unfolding lookup
no_new_block = refl

add_block-IsBest_example : IsBest new_state
add_block-IsBest_example =
    add_block-IsBest chain_state new_state new_block 1_700_000_000 chain_state-IsBest runs.7
      (λ h e.
        subst (λ k. lookup k chain_state.block_by_hash ≡ none) (ok-injective (sym runs.3 ∙ e))
          no_new_block)
      added

heights_reset_example :
    ((x : Error) × (add_block_no_validation reset_state new_block ≡ err x))
    × (lookup (hash_of 1) reset_state.block_by_hash ≡ lookup (hash_of 1) chain_state.block_by_hash)
heights_reset_example =
    heights_reset chain_state reset_state genesis new_block new_hash (unfold is_genesis in refl)
      runs.6 (ok-state_of (add_block_no_validation chain_state genesis) runs.5)
      (unfold is_genesis in refl) (differ (hash_of 1) new_hash refl)

uto_apply_block_bound_example :
    IsSound new_outs
    × (total new_outs
        ≤ℤ sum_except value_of (references_all (payment ∷ [])) outs_at_parent
          +ℤ sum_outputs (reward 163001 bob).outputs
          +ℤ outputs_all (payment ∷ []))
unfolding lookup output_reference_beq ◌+ℤ◌
uto_apply_block_bound_example =
    uto_apply_block_bound new_block (reward 163001 bob) (payment ∷ []) outs_at_parent new_outs refl
      ((refl, tt), (omega arith, tt)) (omega arith, tt) ((omega arith, (omega arith, tt)), tt)
      runs.4

checkpoint_text :
    lookup 163000 known_hashes
    ≡ some "0004ffae52a8f42088d3ccc24f0f04b11489666329c0d6321ebaf0c3b9cd5140"
unfolding known_hashes lookup
checkpoint_text = refl

parent-AtCheckpoint : AtCheckpoint parent
unfolding computer block_hash block_header_hash or_cached skepticoin.Humans.digit_value
parent-AtCheckpoint text e =
    let same : "0004ffae52a8f42088d3ccc24f0f04b11489666329c0d6321ebaf0c3b9cd5140" ≡ text =
      ground (arith, checkpoint_text, e) in
    (checkpoint_hash, refl, subst (λ t. computer (char_codes t) ≡ ok checkpoint_hash) same refl)

chain_state-AllAtCheckpoint : AllAtCheckpoint chain_state
chain_state-AllAtCheckpoint k b e =
    subst AtCheckpoint (only_one (hash_of 1) k parent e) parent-AtCheckpoint

checkpoints_agree_example :
    (h : Bytes) × (computer
        (char_codes "0004ffae52a8f42088d3ccc24f0f04b11489666329c0d6321ebaf0c3b9cd5140")
      ≡ ok h)
    × (block_hash parent ≡ ok h)
    × (block_hash parent ≡ ok h)
checkpoints_agree_example =
    checkpoints_agree chain_state new_state (hash_of 1) (hash_of 1) parent parent
      "0004ffae52a8f42088d3ccc24f0f04b11489666329c0d6321ebaf0c3b9cd5140" chain_state-AllAtCheckpoint
      (with_block new_block 1_700_000_000 unchanged added) runs.8 runs.8 refl checkpoint_text
