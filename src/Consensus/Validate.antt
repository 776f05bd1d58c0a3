-- ===== src/Consensus/Validate.antt =====
-- skepticoin/consensus.py: the validation of transactions and blocks, and `CoinState.add_block`.
-- A check that fails is an exception; one that passes returns nothing.
use Prim.Native.String.{String}
use skepticoin.Datatypes.{output_reference_eq}
use skepticoin.Datatypes.Wire.{transaction_wire}
use skepticoin.CoinState.{CoinState}
use skepticoin.Balances.{UnspentOuts}
use skepticoin.Cheating.{known_hashes, max_known_hash_height}
use skepticoin.CoinState.{add_block_no_validation}
use skepticoin.Consensus.{
  calc_merkle_root_hash, calc_target, construct_pow_evidence, get_block_fees, get_block_subsidy,
  sum_outputs,
}
use skepticoin.Crypto.{Crypto}
use skepticoin.Datatypes.{
  Block, BlockHeader, BlockSummary, Input, Output, OutputReference, Transaction, pow_evidence_eq,
  references_thin_air, transaction_eq,
}
use skepticoin.Datatypes.Hash.{block_hash, block_header_hash, transaction_hash}
use skepticoin.Datatypes.Wire.{serialize_block, serialize_transaction}
use skepticoin.Humans.{char_codes, computer}
use skepticoin.Params.{
  max_block_size, max_coinbase_random_data_size, max_future_block_time, max_sashimi,
}
use skepticoin.Prelude.{
  Bool, Bytes, List, Option, [], drop, false, if◌then◌else◌, leb, length, ltb, none, not, some,
  true, ℕ, ◌&&◌, ◌+◌, ◌==◌, ◌||◌, ◌∷◌,
}
use skepticoin.Prelude.Eq.{list_eq, nat_eq, ◌≟◌}
use skepticoin.Prelude.Int.{leb_ℤ, ltb_ℤ, pos, ℤ, ◌+ℤ◌}
use skepticoin.Prelude.Map.{get_item, lookup}
use skepticoin.Prelude.Map.Except.{mem_key}
use skepticoin.Prelude.Result.{
  Result, assertion_error, attribute_error, err, index_error, ok, or_raise, raise_if,
  validate_block, validate_block_header, validate_pow, validate_transaction, validation, ◌>>=◌,
  ◌>>◌,
}
use skepticoin.Signing.{Signature, coinbase_data, is_not_signature, validate_signature}
use skepticoin.Datatypes.{transaction_signable_equivalent}

abbrev pub Check : Type 0
Check = Result (Unit {0})

-- A check of each element, in order.
unfoldable pub check_all : {A : Type 0} → (A → Check) → List A → Check
check_all f [] = ok tt
check_all f (x ∷ xs) = f x >> check_all f xs

unfoldable pub validate_sashimi_range : ℤ → Check
validate_sashimi_range v = raise_if (not (ltb_ℤ (pos 0) v && leb_ℤ v (pos max_sashimi))) validation

-- The loop over the outputs, which checks each value, and the check of their sum.
unfoldable pub validate_outputs : ℤ → List Output → Check
validate_outputs sum [] = validate_sashimi_range sum
validate_outputs sum (o ∷ os) =
    validate_sashimi_range o.value >> validate_outputs (sum +ℤ o.value) os

-- The references of a list of inputs, each of which must be new; the set of all comes back.
unfoldable pub add_new_references :
    List OutputReference → List Input → Result (List OutputReference)
add_new_references seen [] = ok seen
add_new_references seen (i ∷ is) =
    let rest = add_new_references (i.output_reference ∷ seen) is in
    if mem_key i.output_reference seen then err validate_transaction else rest

unfoldable pub check_signature_class : Option Signature → Check
check_signature_class none = err assertion_error
check_signature_class (some s) = raise_if (is_not_signature s) validate_transaction

unfoldable pub validate_input_by_itself : Input → Check
validate_input_by_itself i =
    raise_if (references_thin_air i.output_reference) validate_transaction
    >> check_signature_class i.signature

unfoldable pub validate_non_coinbase_transaction_by_itself : Transaction → Check
validate_non_coinbase_transaction_by_itself t = do
  raise_if (length t.inputs == 0) validate_transaction
  raise_if (length t.outputs == 0) validate_transaction
  b ← serialize_transaction t
  raise_if (ltb max_block_size (length b)) validate_transaction
  validate_outputs (pos 0) t.outputs
  refs ← add_new_references [] t.inputs
  check_all validate_input_by_itself t.inputs

-- The checks of the data that takes the place of a coinbase signature.
unfoldable pub check_coinbase_data : Option Signature → Check
check_coinbase_data (some (coinbase_data height data')) =
    raise_if (ltb max_coinbase_random_data_size (length data')) validate_transaction
check_coinbase_data _ = err validate_transaction

unfoldable pub check_coinbase_inputs : List Input → Check
check_coinbase_inputs (i ∷ []) =
    raise_if (not (references_thin_air i.output_reference)) validate_transaction
    >> check_coinbase_data i.signature
check_coinbase_inputs _ = err validate_transaction

unfoldable pub validate_coinbase_transaction_by_itself : Transaction → Check
validate_coinbase_transaction_by_itself t = check_coinbase_inputs t.inputs

-- Python's `<` on byte strings.
unfoldable pub bytes_lt : Bytes → Bytes → Bool
bytes_lt [] [] = false
bytes_lt [] (y ∷ ys) = true
bytes_lt (x ∷ xs) [] = false
bytes_lt (x ∷ xs) (y ∷ ys) = ltb x y || ((x == y) && bytes_lt xs ys)

unfoldable pub validate_proof_of_work : Bytes → Bytes → Check
validate_proof_of_work hash target = raise_if (not (bytes_lt hash target)) validate_pow

-- `coinbase_transaction.inputs[0].signature.height`
unfoldable pub coinbase_height : List Input → Result ℕ
coinbase_height [] = err index_error
coinbase_height (i ∷ is) = elim i.signature [
  | none ↦ err attribute_error
  | some s ↦ elim s [ coinbase_data height d ↦ ok height | _ ↦ err attribute_error ]
]

unfoldable pub check_references : List OutputReference → List Transaction → Check
check_references seen [] = ok tt
check_references seen (t ∷ ts) = do
  seen' ← add_new_references seen t.inputs
  check_references seen' ts

unfoldable pub validate_no_duplicate_output_references_in_transactions : List Transaction → Check
validate_no_duplicate_output_references_in_transactions ts = check_references [] ts

module _ ⦃c : Crypto⦄ where
  -- Membership in a set of transactions: the hash of the object, then `==`.
  unfoldable pub mem_transaction : ℕ → Transaction → List (ℕ × Transaction) → Bool
  mem_transaction h t [] = false
  mem_transaction h t ((k, s) ∷ seen) = ((k == h) && transaction_eq s t) || mem_transaction h t seen

  unfoldable pub check_transactions : List (ℕ × Transaction) → List Transaction → Check
  check_transactions seen [] = ok tt
  check_transactions seen (t ∷ ts) = do
    b ← transaction_hash t
    raise_if (mem_transaction (c.py_hash b) t seen) validate_transaction
    check_transactions ((c.py_hash b, t) ∷ seen) ts

  unfoldable pub validate_no_duplicate_transactions : List Transaction → Check
  validate_no_duplicate_transactions ts = check_transactions [] ts

  unfoldable pub validate_block_header_by_itself : BlockHeader → ℕ → Check
  validate_block_header_by_itself h current_timestamp = do
    hash ← block_header_hash h
    validate_proof_of_work hash h.summary.target
    raise_if (ltb (current_timestamp + max_future_block_time) h.summary.timestamp)
        validate_block_header

  -- The checks of the block's transactions, the first of which is the coinbase.
  unfoldable pub validate_transactions_by_itself : Block → Transaction → List Transaction → Check
  validate_transactions_by_itself b coinbase others = do
    validate_coinbase_transaction_by_itself coinbase
    height ← coinbase_height coinbase.inputs
    raise_if (not (height == b.height)) validate_block
    check_all validate_non_coinbase_transaction_by_itself others
    validate_no_duplicate_transactions others
    validate_no_duplicate_output_references_in_transactions others
    root ← calc_merkle_root_hash b.transactions
    raise_if (not (b.merkle_root_hash ≟ root)) validate_block

  unfoldable pub validate_block_by_itself : Block → ℕ → Check
  validate_block_by_itself b current_timestamp =
      validate_block_header_by_itself b.header current_timestamp >> elim b.transactions [
        | [] ↦ err validate_block
        | coinbase ∷ others ↦ (do
          bytes ← serialize_block b
          raise_if (ltb max_block_size (length bytes)) validate_block
          validate_transactions_by_itself b coinbase others)
      ]

  unfoldable pub validate_coinbase_transaction_in_coinstate :
      Transaction → Block → CoinState → Check
  validate_coinbase_transaction_in_coinstate t b s = do
    previous_block ← get_item b.previous_block_hash s.block_by_hash
    raise_if (not (b.height == previous_block.height + 1)) validate_block_header
    outs ← get_item b.previous_block_hash s.unspent_transaction_outs_by_hash
    fees ← get_block_fees (drop 1 b.transactions) outs
    raise_if (ltb_ℤ (fees +ℤ pos (get_block_subsidy b.height)) (sum_outputs t.outputs))
        validate_transaction

  unfoldable pub validate_signature_for_spend : Input → Output → Transaction → Check
  validate_signature_for_spend i previous_output t = do
    message ← serialize_transaction (transaction_signable_equivalent t)
    signature ← or_raise i.signature assertion_error
    valid ← validate_signature signature previous_output.public_key message
    raise_if (not valid) validate_transaction

  -- The loop over the inputs: what they bring in, once each is found and its signature is right.
  unfoldable pub spendable_value : Transaction → UnspentOuts → List Input → Result ℤ
  spendable_value t outs [] = ok (pos 0)
  spendable_value t outs (i ∷ is) = do
    previous_output ← or_raise (lookup i.output_reference outs) validate_transaction
    validate_signature_for_spend i previous_output t
    rest ← spendable_value t outs is
    ok (previous_output.value +ℤ rest)

  unfoldable pub validate_non_coinbase_transaction_in_coinstate :
      Transaction → Bytes → CoinState → Check
  validate_non_coinbase_transaction_in_coinstate t at_hash s = do
    outs ← get_item at_hash s.unspent_transaction_outs_by_hash
    paid_in ← spendable_value t outs t.inputs
    raise_if (ltb_ℤ paid_in (sum_outputs t.outputs)) validate_transaction

  unfoldable pub validate_block_summary_in_coinstate : BlockSummary → CoinState → Check
  validate_block_summary_in_coinstate summary s = do
    previous_block ←
        or_raise (lookup summary.previous_block_hash s.block_by_hash) validate_block_header
    raise_if (leb summary.timestamp previous_block.timestamp) validate_block_header
    target ← calc_target s (previous_block.height + 1) summary.timestamp previous_block
    raise_if (not (summary.target ≟ target)) validate_block_header

  -- The block must have the hash of the checkpoint at its height; with none, nothing is checked.
  unfoldable pub validate_known_hash : Block → Option String → Check
  validate_known_hash b none = ok tt
  validate_known_hash b (some text) = do
    hash ← block_hash b
    known ← computer (char_codes text)
    raise_if (not (hash ≟ known)) validation

  unfoldable pub validate_checkpoint : Block → Check
  validate_checkpoint b = validate_known_hash b (lookup b.height known_hashes)

  unfoldable pub validate_after_checkpoints : Block → CoinState → Check
  validate_after_checkpoints b s = do
    validate_block_summary_in_coinstate b.summary s
    evidence ← construct_pow_evidence s b.summary b.height b.transactions
    raise_if (not (pow_evidence_eq b.pow_evidence evidence)) validate_block
    elim b.transactions [
      | [] ↦ err index_error
      | coinbase ∷ others ↦ (do
        validate_coinbase_transaction_in_coinstate coinbase b s
        check_all (λ t. validate_non_coinbase_transaction_in_coinstate t b.previous_block_hash s)
            others)
    ]

  unfoldable pub validate_block_in_coinstate : Block → CoinState → Check
  validate_block_in_coinstate b s =
      if leb b.height max_known_hash_height
      then validate_checkpoint b
      else validate_after_checkpoints b s

  -- `CoinState.add_block`
  unfoldable pub add_block : CoinState → Block → ℕ → Result CoinState
  add_block s b current_timestamp = do
    validate_block_by_itself b current_timestamp
    validate_block_in_coinstate b s
    add_block_no_validation s b
