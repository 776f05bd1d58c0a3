-- ===== src/Wallet/Spend.antt =====
-- skepticoin/wallet.py: the wallet, the choice of the outputs to spend, and the signing.
pub mod Stuck
use skepticoin.Crypto
use skepticoin.Crypto.{Crypto}
use skepticoin.Datatypes.{
  Input, Output, OutputReference, Transaction, transaction_signable_equivalent, output_reference_eq,
}
use skepticoin.Signing.{PublicKey, new_public_key, new_secp256k1_signature, public_key_eq}
use skepticoin.Balances.{Balances, UnspentOuts}
use skepticoin.CoinState.{CoinState, outs_at_head, balances_at_head}
use skepticoin.Prelude.{Bytes, List, [], ◌∷◌, ℕ}
use skepticoin.Prelude.Result.{Result, ok, err, plain_exception, key_error, signing_error, ◌>>=◌}
use Prim.Native.String.{String}
use skepticoin.Datatypes.Wire.{serialize_transaction}
use skepticoin.Prelude.{if◌then◌else◌, none, some, ◌++◌}
use skepticoin.Prelude.Eq.{list_eq, nat_eq}
use skepticoin.Prelude.Int.{int_beq, leb_ℤ, pos, ℤ, ◌+ℤ◌, ◌-ℤ◌}
use skepticoin.Prelude.Map.{Map, lookup}
use skepticoin.Prelude.Map.Except.{mem_key}
use skepticoin.Prelude.Result.{Error, or_raise}

-- A dict keeps the order in which its keys were written. The set is a list.
pub record Wallet : Type 0 where
  pub keypairs : Map Bytes Bytes
  pub unused_public_keys : List Bytes
  pub public_key_annotations : Map Bytes String
  pub spent_transaction_outputs : List OutputReference

-- The variables of the loops of `create_spend_transaction`.
pub record Collected : Type 0 where
  pub spent : List OutputReference
  pub inputs : List Input
  pub value : ℤ

-- How the loops end: with no more outputs, with enough value, or by an exception.
pub data Outcome : Type 0 where
  more enough : Collected → Outcome
  failed : Error → Collected → Outcome

-- An output that the wallet spends.
abbrev pub collect : OutputReference → Output → Collected → Collected
collect r o c = record {
  spent = r ∷ c.spent;
  inputs = c.inputs ++ (record { output_reference = r; signature = none } ∷ []);
  value = c.value +ℤ o.value;
}

-- An output that is not there, which is marked as spent all the same.
abbrev pub collect_missing : OutputReference → Collected → Collected
collect_missing r c = record {
  spent = r ∷ c.spent;
  inputs = c.inputs ++ (record { output_reference = r; signature = none } ∷ []);
  value = c.value;
}

-- The inner loop, over the references of a key.
unfoldable pub collect_references : UnspentOuts → ℤ → List OutputReference → Collected → Outcome
collect_references outs needed [] c = more c
collect_references outs needed (r ∷ rs) c =
    let skipped = collect_references outs needed rs c in
    let taken : Outcome = elim (lookup r outs) [
      | none ↦ failed key_error (collect_missing r c)
      | some o ↦
          (let rest = collect_references outs needed rs (collect r o c) in
            if leb_ℤ needed (collect r o c).value then enough (collect r o c) else rest)
    ] in
    if mem_key r c.spent then skipped else taken

-- The references of a key of the wallet; a key without a balance has none.
unfoldable pub references_of : Result Balances → Bytes → Result (List OutputReference)
references_of balances k = do
  key ← new_public_key k
  all_balances ← balances
  ok (elim (lookup key all_balances) [ none ↦ [] | some b ↦ b.output_references ])

-- A loop that goes on from how the one inside it ended, and from what it needs.
abbrev pub and_then : Outcome → (Collected → Outcome) → Outcome
and_then (more c) go_on = go_on c
and_then (enough c) go_on = enough c
and_then (failed e c) go_on = failed e c

abbrev pub with_references :
    Result (List OutputReference) → Collected → (List OutputReference → Outcome) → Outcome
with_references (err e) c loop = failed e c
with_references (ok rs) c loop = loop rs

-- The outer loop, over the keys of the wallet.
unfoldable pub collect_keys :
    UnspentOuts → Result Balances → ℤ → List (Bytes × Bytes) → Collected → Outcome
collect_keys outs balances needed [] c = more c
collect_keys outs balances needed ((k, secret) ∷ ks) c =
    with_references (references_of balances k) c (λ rs.
      and_then (collect_references outs needed rs c)
        (λ c'. collect_keys outs balances needed ks c'))

abbrev pub start : List OutputReference → Collected
start spent = record { spent = spent; inputs = []; value = pos 0 }

-- The outputs of the payment: the value, and the change if there is any.
unfoldable pub spend_outputs : ℤ → ℤ → ℤ → PublicKey → PublicKey → List Output
spend_outputs collected value miners_fee key change =
    record { value = value; public_key = key }
    ∷ (if int_beq collected (value +ℤ miners_fee)
        then []
        else record { value = collected -ℤ (value +ℤ miners_fee); public_key = change } ∷ [])

module _ ⦃c : Crypto⦄ where
  unfoldable pub sign_inputs : Wallet → UnspentOuts → Bytes → List Input → Result (List Input)
  sign_inputs w outs message [] = ok []
  sign_inputs w outs message (i ∷ is) = do
    output ← or_raise (lookup i.output_reference outs) plain_exception
    private_key ← or_raise (lookup output.public_key.public_key w.keypairs) plain_exception
    signed ← or_raise (c.sign private_key message) signing_error
    signature ← new_secp256k1_signature signed
    rest ← sign_inputs w outs message is
    ok (record { output_reference = i.output_reference; signature = some signature } ∷ rest)

  unfoldable pub sign_transaction : Wallet → UnspentOuts → Transaction → Result Transaction
  sign_transaction w outs t = do
    message ← serialize_transaction (transaction_signable_equivalent t)
    inputs ← sign_inputs w outs message (transaction_signable_equivalent t).inputs
    ok (record { inputs = inputs; outputs = t.outputs; cached_hash = none })

  -- What the loops did to the wallet stays, also when they fail.
  unfoldable pub finish_spend :
      Wallet → UnspentOuts → ℤ → ℤ → PublicKey → PublicKey → Outcome → Result Transaction × Wallet
  finish_spend w outs value miners_fee key change (more c) =
      (err plain_exception, record w { spent_transaction_outputs = c.spent })
  finish_spend w outs value miners_fee key change (failed e c) =
      (err e, record w { spent_transaction_outputs = c.spent })
  finish_spend w outs value miners_fee key change (enough c) = (
    sign_transaction w outs (record {
      inputs = c.inputs;
      outputs = spend_outputs c.value value miners_fee key change;
      cached_hash = none;
    }),
    record w { spent_transaction_outputs = c.spent },
  )

  unfoldable pub spend_at :
      Wallet
      → CoinState
      → ℤ
      → ℤ
      → PublicKey
      → PublicKey
      → Result UnspentOuts
      → Result Transaction × Wallet
  spend_at w s value miners_fee key change (err e) = (err e, w)
  spend_at w s value miners_fee key change (ok outs) =
      finish_spend w outs value miners_fee key change (
        collect_keys outs (balances_at_head s).0 (value +ℤ miners_fee) w.keypairs
          (start w.spent_transaction_outputs))

  -- The cache that the balances at the head leave in the coin state is not part of the result.
  unfoldable pub create_spend_transaction :
      Wallet → CoinState → ℤ → ℤ → PublicKey → PublicKey → Result Transaction × Wallet
  create_spend_transaction w s value miners_fee key change =
      spend_at w s value miners_fee key change (outs_at_head s)
