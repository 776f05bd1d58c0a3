-- ===== src/Consensus/Checks.antt =====
-- What the validation of skepticoin/consensus.py says of the money in a block.
use skepticoin.Datatypes.{output_reference_eq}
use skepticoin.Datatypes.Wire.{input_wire, output_wire, transaction_wire}
use skepticoin.Balances.{UnspentOuts}
use skepticoin.CoinState.{CoinState}
use skepticoin.Balances.Unspent.{AllPaid}
use skepticoin.Consensus.Validate.{
  Check, check_all, check_references, validate_block_by_itself,
  validate_non_coinbase_transaction_by_itself, validate_outputs, validate_sashimi_range,
  validate_transactions_by_itself,
}
use skepticoin.Crypto.{Crypto}
use skepticoin.Datatypes.{Block, Output, Transaction}
use skepticoin.Datatypes.Wire.{
  serialize_block, serialize_block_header, serialize_output, serialize_transaction,
}
use skepticoin.Params.{max_block_size, max_sashimi}
use skepticoin.Prelude.{All, Bytes, List, [], arith, length, ltb, not, ℕ, ◌&&◌, ◌==◌, ◌∷◌, ◌≡◌}
use skepticoin.Prelude.Int.{leb_ℤ, ltb_ℤ, pos, ℤ, ◌+ℤ◌, ◌≤ℤ◌}
use skepticoin.Prelude.Result.{
  >>=-eq_ok, Result, ok, raise_if, raise_if-eq_ok, validate_transaction, validation, ◌then_write◌,
}
use skepticoin.Serialization.{stream_serialize_list, write_all}
use skepticoin.Serialization.Pack.{pack, pack_ℤ}
use skepticoin.Serialization.Vlq.{stream_serialize_vlq}
use skepticoin.Cheating.{max_known_hash_height}
use skepticoin.Consensus.{construct_pow_evidence, get_block_fees, get_block_subsidy}
use skepticoin.Consensus.Validate.{
  coinbase_height, validate_after_checkpoints, validate_block_header_by_itself,
  validate_block_in_coinstate, validate_block_summary_in_coinstate,
  validate_coinbase_transaction_by_itself, validate_coinbase_transaction_in_coinstate,
  validate_no_duplicate_output_references_in_transactions, validate_no_duplicate_transactions,
}
use skepticoin.Datatypes.{pow_evidence_eq, sum_outputs}
use skepticoin.Prelude.{All-map, drop, false, leb, some, ◌+◌, ◌<◌}
use skepticoin.Prelude.Eq.{list_eq, nat_eq}
use skepticoin.Prelude.Map.{get_item, lookup}
use skepticoin.Prelude.Map.Laws.{get_item-eq_ok}
use skepticoin.Prelude.Result.{validate_block, validate_block_header}

pub check_all-eq_ok :
    {A : Type 0} (f : A → Check) (xs : List A) → check_all f xs ≡ ok tt → All (λ x. f x ≡ ok tt) xs
unfolding check_all
check_all-eq_ok f [] h = tt
check_all-eq_ok f (x ∷ xs) h =
    let (_, h1, h2) = >>=-eq_ok (f x) _ h in (h1, check_all-eq_ok f xs h2)

in_range : (v : ℤ) → validate_sashimi_range v ≡ ok tt → pos 0 ≤ℤ v
unfolding validate_sashimi_range
in_range v h =
    ground (arith, raise_if-eq_ok (not (ltb_ℤ (pos 0) v && leb_ℤ v (pos max_sashimi))) validation)

validate_outputs-AllPaid :
    (sum : ℤ) (os : List Output) → validate_outputs sum os ≡ ok tt → AllPaid os
unfolding validate_outputs
validate_outputs-AllPaid sum [] h = tt
validate_outputs-AllPaid sum (o ∷ os) h =
    let (_, h1, h2) = >>=-eq_ok (validate_sashimi_range o.value) _ h in
    (in_range o.value h1, validate_outputs-AllPaid (sum +ℤ o.value) os h2)

transaction-AllPaid :
    (t : Transaction) → validate_non_coinbase_transaction_by_itself t ≡ ok tt → AllPaid t.outputs
unfolding validate_non_coinbase_transaction_by_itself
transaction-AllPaid t h =
    let (_, _, h1) = >>=-eq_ok (raise_if (length t.inputs == 0) validate_transaction) _ h in
    let (_, _, h2) = >>=-eq_ok (raise_if (length t.outputs == 0) validate_transaction) _ h1 in
    let (b, _, h3) = >>=-eq_ok (serialize_transaction t) _ h2 in
    let (_, _, h4) =
      >>=-eq_ok (raise_if (ltb max_block_size (length b)) validate_transaction) _ h3 in
    let (_, h5, _) = >>=-eq_ok (validate_outputs (pos 0) t.outputs) _ h4 in
    validate_outputs-AllPaid (pos 0) t.outputs h5

then_write-eq_ok :
    (m k : Result Bytes) {b : Bytes}
    → (m then_write k) ≡ ok b
    → (x : Bytes) × (y : Bytes) × (m ≡ ok x) × (k ≡ ok y)
then_write-eq_ok m k h =
    let (x, h1, h2) = >>=-eq_ok m _ h in let (y, h3, _) = >>=-eq_ok k _ h2 in (x, y, h1, h3)

-- A value that can be written is not negative.
output-paid : (o : Output) {b : Bytes} → serialize_output o ≡ ok b → pos 0 ≤ℤ o.value
unfolding serialize_output pack_ℤ
output-paid o h = let (x, y, h1, _) = then_write-eq_ok (pack_ℤ 8 o.value) _ h in ground arith

outputs-paid : (os : List Output) {b : Bytes} → write_all os ≡ ok b → AllPaid os
unfolding write_all
outputs-paid [] h = tt
outputs-paid (o ∷ os) h =
    let (x, y, h1, h2) = then_write-eq_ok (serialize_output o) (write_all os) h in
    (output-paid o h1, outputs-paid os h2)

written_transaction-AllPaid :
    (t : Transaction) {b : Bytes} → serialize_transaction t ≡ ok b → AllPaid t.outputs
unfolding serialize_transaction stream_serialize_list
written_transaction-AllPaid t h =
    let (_, _, _, h1) = then_write-eq_ok (pack 1 0) _ h in
    let (_, _, _, h2) = then_write-eq_ok (stream_serialize_list t.inputs) _ h1 in
    let (_, _, _, h3) = then_write-eq_ok (stream_serialize_vlq (length t.outputs)) _ h2 in
    outputs-paid t.outputs h3

module _ ⦃c : Crypto⦄ where
  written_block-AllPaid :
      (b : Block) (t : Transaction) (ts : List Transaction) {bytes : Bytes}
      → b.transactions ≡ t ∷ ts
      → serialize_block b ≡ ok bytes
      → AllPaid t.outputs
  unfolding serialize_block stream_serialize_list write_all
  written_block-AllPaid b t ts e h =
      let (_, _, _, h1) = then_write-eq_ok (serialize_block_header b.header) _ h in
      let (_, _, _, h2) = then_write-eq_ok (stream_serialize_vlq (length b.transactions)) _ h1 in
      let (_, _, h3, _) = then_write-eq_ok (serialize_transaction t) (write_all ts) (rw e at h2) in
      written_transaction-AllPaid t h3

  -- What the validation of a block by itself establishes of its money.
  pub record IsPaid (b : Block) (first : Transaction) (others : List Transaction) : Type 0 where
    pub first_paid : AllPaid first.outputs
    pub others_paid : All (λ t. AllPaid t.outputs) others
    pub distinct : check_references [] others ≡ ok tt

  by_itself_parts :
      (b : Block) (first : Transaction) (others : List Transaction) (now : ℕ)
      → b.transactions ≡ first ∷ others
      → validate_block_by_itself b now ≡ ok tt
      → (bytes : Bytes) × (serialize_block b ≡ ok bytes)
        × (validate_transactions_by_itself b first others ≡ ok tt)
  unfolding validate_block_by_itself
  by_itself_parts b first others now e h =
      let (_, _, h1) = >>=-eq_ok (validate_block_header_by_itself b.header now) _ h in
      let (bytes, h2, h3) = >>=-eq_ok (serialize_block b) _ (rw e at h1) in
      let (_, _, h4) =
        >>=-eq_ok (raise_if (ltb max_block_size (length bytes)) validate_block) _ h3 in
      (bytes, h2, h4)

  transactions_parts :
      (b : Block) (first : Transaction) (others : List Transaction)
      → validate_transactions_by_itself b first others ≡ ok tt
      → (check_all validate_non_coinbase_transaction_by_itself others ≡ ok tt)
        × (check_references [] others ≡ ok tt)
  unfolding validate_transactions_by_itself validate_no_duplicate_output_references_in_transactions
  transactions_parts b first others h =
      let (_, _, h1) = >>=-eq_ok (validate_coinbase_transaction_by_itself first) _ h in
      let (k, _, h2) = >>=-eq_ok (coinbase_height first.inputs) _ h1 in
      let (_, _, h3) = >>=-eq_ok (raise_if (not (k == b.height)) validate_block) _ h2 in
      let (_, h4, h5) =
        >>=-eq_ok (check_all validate_non_coinbase_transaction_by_itself others) _ h3 in
      let (_, _, h6) = >>=-eq_ok (validate_no_duplicate_transactions others) _ h5 in
      let (_, h7, _) = >>=-eq_ok (check_references [] others) _ h6 in (h4, h7)

  pub block-IsPaid :
      (b : Block) (first : Transaction) (others : List Transaction) (now : ℕ)
      → b.transactions ≡ first ∷ others
      → validate_block_by_itself b now ≡ ok tt
      → IsPaid b first others
  block-IsPaid b first others now e h =
      let (bytes, h1, h2) = by_itself_parts b first others now e h in
      let (h3, h4) = transactions_parts b first others h2 in
      record {
        first_paid = written_block-AllPaid b first others e h1;
        others_paid =
            All-map (λ t. validate_non_coinbase_transaction_by_itself t ≡ ok tt)
              (λ t. AllPaid t.outputs) transaction-AllPaid others (check_all-eq_ok _ others h3);
        distinct = h4;
      }

  -- What the validation in the coin state establishes of a block after the checkpoints.
  pub record IsFunded (s : CoinState) (b : Block) (first : Transaction) (others : List Transaction)
      : Type 0 where
    pub parent : Block
    pub parent_found : lookup b.previous_block_hash s.block_by_hash ≡ some parent
    pub next_height : b.height ≡ parent.height + 1
    pub outs : UnspentOuts
    pub outs_found : lookup b.previous_block_hash s.unspent_transaction_outs_by_hash ≡ some outs
    pub fees : ℤ
    pub fees_found : get_block_fees others outs ≡ ok fees
    pub funded : sum_outputs first.outputs ≤ℤ fees +ℤ pos (get_block_subsidy b.height)

  coinbase-IsFunded :
      (s : CoinState) (b : Block) (first : Transaction) (others : List Transaction)
      → b.transactions ≡ first ∷ others
      → validate_coinbase_transaction_in_coinstate first b s ≡ ok tt
      → IsFunded s b first others
  unfolding validate_coinbase_transaction_in_coinstate
  coinbase-IsFunded s b first others e h =
      let (parent, h1, h2) = >>=-eq_ok (get_item b.previous_block_hash s.block_by_hash) _ h in
      let (_, h3, h4) =
        >>=-eq_ok (raise_if (not (b.height == parent.height + 1)) validate_block_header) _ h2 in
      let (outs, h5, h6) =
        >>=-eq_ok (get_item b.previous_block_hash s.unspent_transaction_outs_by_hash) _ h4 in
      let (fees, h7, h8) = >>=-eq_ok (get_block_fees (drop 1 b.transactions) outs) _ h6 in
      record {
        parent = parent;
        parent_found = get_item-eq_ok b.previous_block_hash s.block_by_hash h1;
        next_height =
            ground (
              arith,
              raise_if-eq_ok (not (b.height == parent.height + 1)) validate_block_header h3,
            );
        outs = outs;
        outs_found = get_item-eq_ok b.previous_block_hash s.unspent_transaction_outs_by_hash h5;
        fees = fees;
        fees_found = rw e at h7;
        funded = ground (
          arith,
          raise_if-eq_ok
              (ltb_ℤ (fees +ℤ pos (get_block_subsidy b.height)) (sum_outputs first.outputs))
              validate_transaction h8,
        );
      }

  pub after_checkpoints-IsFunded :
      (s : CoinState) (b : Block) (first : Transaction) (others : List Transaction)
      → b.transactions ≡ first ∷ others
      → max_known_hash_height < b.height
      → validate_block_in_coinstate b s ≡ ok tt
      → IsFunded s b first others
  unfolding validate_block_in_coinstate validate_after_checkpoints
  after_checkpoints-IsFunded s b first others e above h =
      let late : leb b.height max_known_hash_height ≡ false = ground arith in
      let (_, _, h1) =
        >>=-eq_ok (validate_block_summary_in_coinstate b.summary s) _ (rw late at h) in
      let (evidence, _, h2) =
        >>=-eq_ok (construct_pow_evidence s b.summary b.height b.transactions) _ h1 in
      let (_, _, h3) =
        >>=-eq_ok (raise_if (not (pow_evidence_eq b.pow_evidence evidence)) validate_block) _ h2 in
      let (_, h4, _) =
        >>=-eq_ok (validate_coinbase_transaction_in_coinstate first b s) _ (rw e at h3) in
      coinbase-IsFunded s b first others e h4
