-- ===== src/Balances.antt =====
-- skepticoin/balances.py: the unspent outputs and the balances of the public keys, as a block and
-- a chain of blocks change them.
pub mod Unspent
pub mod Chain
use skepticoin.Crypto
use skepticoin.Signing.{public_key_eq}
use skepticoin.Datatypes.{output_reference_eq}
use skepticoin.Crypto.{Crypto}
use skepticoin.Datatypes.{Block, Input, Output, OutputReference, Transaction, new_output_reference}
use skepticoin.Datatypes.Hash.{transaction_hash}
use skepticoin.Prelude.{Bool, List, [], false, if◌then◌else◌, true, ℕ, ◌++◌, ◌+◌, ◌∷◌}
use skepticoin.Prelude.Eq.{list_eq, nat_eq, ◌≟◌}
use skepticoin.Prelude.Int.{pos, ℤ, ◌+ℤ◌, ◌-ℤ◌}
use skepticoin.Prelude.Map.{Map, contains, del_item, get_item, insert}
use skepticoin.Prelude.Result.{Result, err, index_error, ok, ◌>>=◌, ◌>>◌}
use skepticoin.Signing.{PublicKey}

-- `immutables.Map[OutputReference, Output]`
abbrev pub UnspentOuts : Type 0
UnspentOuts = Map OutputReference Output

pub record PkBalance : Type 0 where
  pub value : ℤ
  pub output_references : List OutputReference

abbrev pub Balances : Type 0
Balances = Map PublicKey PkBalance

-- The deletion of each input; one that is not there is a KeyError.
unfoldable pub remove_inputs : List Input → UnspentOuts → Result UnspentOuts
remove_inputs [] m = ok m
remove_inputs (i ∷ is) m = do m' ← del_item i.output_reference m; remove_inputs is m'

-- `[to for to in references if to != reference]`
unfoldable pub without : OutputReference → List OutputReference → List OutputReference
without r [] = []
without r (x ∷ xs) = let rest = without r xs in if x ≟ r then rest else x ∷ rest

unfoldable pub remove_balances : UnspentOuts → List Input → Balances → Result Balances
remove_balances uto [] b = ok b
remove_balances uto (i ∷ is) b = do
  o ← get_item i.output_reference uto
  old ← get_item o.public_key b
  remove_balances uto is (
      insert o.public_key
        (record {
          value = old.value -ℤ o.value;
          output_references = without i.output_reference old.output_references;
        })
        b)

-- The balance of a key that has none yet is 0, with no references.
unfoldable pub add_balance : OutputReference → Output → Balances → Result Balances
add_balance r o b = do
  let b' =
      if contains o.public_key b
      then b
      else insert o.public_key (record { value = pos 0; output_references = [] }) b
  old ← get_item o.public_key b'
  ok (
      insert o.public_key
        (record {
          value = old.value +ℤ o.value;
          output_references = old.output_references ++ (r ∷ []);
        })
        b')

module _ ⦃c : Crypto⦄ where
  -- `for i, output in enumerate(transaction.outputs)`, from index `i` on.
  unfoldable pub add_outputs : Transaction → ℕ → List Output → UnspentOuts → Result UnspentOuts
  add_outputs t i [] m = ok m
  add_outputs t i (o ∷ os) m = do
    h ← transaction_hash t
    r ← new_output_reference h i
    add_outputs t (i + 1) os (insert r o m)

  unfoldable pub uto_apply_transaction : UnspentOuts → Transaction → Bool → Result UnspentOuts
  uto_apply_transaction m t is_coinbase = do
    m' ← (if is_coinbase then ok m else remove_inputs t.inputs m)
    add_outputs t 0 t.outputs m'

  unfoldable pub uto_apply_all : UnspentOuts → List Transaction → Result UnspentOuts
  uto_apply_all m [] = ok m
  uto_apply_all m (t ∷ ts) = do m' ← uto_apply_transaction m t false; uto_apply_all m' ts

  unfoldable pub uto_apply_block : UnspentOuts → Block → Result UnspentOuts
  uto_apply_block m b = elim b.transactions [
    | [] ↦ err index_error
    | t ∷ ts ↦ (do m' ← uto_apply_transaction m t true; uto_apply_all m' ts)
  ]

  unfoldable pub add_balances : Transaction → ℕ → List Output → Balances → Result Balances
  add_balances t i [] b = ok b
  add_balances t i (o ∷ os) b = do
    h ← transaction_hash t
    r ← new_output_reference h i
    b' ← add_balance r o b
    add_balances t (i + 1) os b'

  unfoldable pub pkb_apply_transaction :
      UnspentOuts → Balances → Transaction → Bool → Result Balances
  pkb_apply_transaction uto b t is_coinbase = do
    b' ← (if is_coinbase then ok b else remove_balances uto t.inputs b)
    add_balances t 0 t.outputs b'

  unfoldable pub pkb_apply_all : UnspentOuts → Balances → List Transaction → Result Balances
  pkb_apply_all uto b [] = ok b
  pkb_apply_all uto b (t ∷ ts) = do
    b' ← pkb_apply_transaction uto b t false
    pkb_apply_all uto b' ts

  -- The unspent outputs are those before the block, for every transaction of it.
  unfoldable pub pkb_apply_block : UnspentOuts → Balances → Block → Result Balances
  pkb_apply_block uto b block = elim block.transactions [
    | [] ↦ err index_error
    | t ∷ ts ↦ (do b' ← pkb_apply_transaction uto b t true; pkb_apply_all uto b' ts)
  ]
