-- ===== src/Balances/Unspent.antt =====
-- The unspent outputs of skepticoin/balances.py under a block: their soundness and their total.
use skepticoin.Datatypes.{output_reference_eq}
use mathlib.Core.Path.{subst}
use skepticoin.Balances.{UnspentOuts, add_outputs, remove_inputs}
use skepticoin.Crypto.{Crypto}
use skepticoin.Datatypes.{Input, Output, OutputReference, Transaction}
use skepticoin.Prelude.{List, [], ℕ, ◌++◌, ◌∷◌, ◌≡◌}
use skepticoin.Prelude.Eq.{list_eq, nat_eq}
use skepticoin.Prelude.Int.{pos, ℤ, ◌+ℤ◌, ◌≤ℤ◌}
use skepticoin.Prelude.Map.{IsUnique, del_item}
use skepticoin.Prelude.Map.Except.{sum_except, sum_except-erase}
use skepticoin.Prelude.Map.Laws.{del_item-eq_ok, erase-IsUnique}
use skepticoin.Prelude.Map.Sum.{AllNonneg, AllNonneg-erase, sum_values}
use skepticoin.Prelude.Result.{>>=-eq_ok, ok, ok-injective}
use skepticoin.Balances.{uto_apply_all, uto_apply_block, uto_apply_transaction}
use skepticoin.Datatypes.{Block, new_output_reference}
use skepticoin.Datatypes.Hash.{transaction_hash}
use skepticoin.Prelude.{All, arith, false, ◌+◌}
use skepticoin.Prelude.Int.{int_laws}
use skepticoin.Prelude.Map.{insert}
use skepticoin.Prelude.Map.Except.{sum_except-insert, sum_except-nil}
use skepticoin.Prelude.Map.Laws.{insert-IsUnique}
use skepticoin.Prelude.Map.Sum.{AllNonneg-insert}
use skepticoin.Datatypes.{sum_outputs}

abbrev pub value_of : Output → ℤ
value_of o = o.value

-- The money in the unspent outputs.
abbrev pub total : UnspentOuts → ℤ
total m = sum_values value_of m

abbrev pub IsSound : UnspentOuts → Type 0
IsSound m = IsUnique m × AllNonneg value_of m

abbrev pub references : List Input → List OutputReference
references [] = []
references (i ∷ is) = i.output_reference ∷ references is

abbrev pub AllPaid : List Output → Type 0
AllPaid [] = Unit
AllPaid (o ∷ os) = (pos 0 ≤ℤ o.value) × AllPaid os

abbrev pub references_all : List Transaction → List OutputReference
references_all [] = []
references_all (t ∷ ts) = references t.inputs ++ references_all ts

abbrev pub outputs_all : List Transaction → ℤ
outputs_all [] = pos 0
outputs_all (t ∷ ts) = sum_outputs t.outputs +ℤ outputs_all ts

below_sum : (a b c w : ℤ) → a ≤ℤ b +ℤ w → b ≤ℤ c → a ≤ℤ c +ℤ w
below_sum a b c w h k = omega int_laws

regrouped : (a b c d : ℤ) → a ≤ℤ b +ℤ c +ℤ d → a ≤ℤ b +ℤ (c +ℤ d)
regrouped a b c d h = omega int_laws

abbrev left_out : List OutputReference → UnspentOuts → ℤ
left_out rs m = sum_except value_of rs m

-- What a step leaves behind: a sound map whose money outside `rs` is within the bound.
abbrev Within : List OutputReference → ℤ → UnspentOuts → Type 0
Within rs bound m = IsSound m × (left_out rs m ≤ℤ bound)

-- Spending takes exactly the spent references out of the list of those to come.
remove_inputs-Within :
    (is : List Input) (rs : List OutputReference) (bound : ℤ) (m : UnspentOuts) {m' : UnspentOuts}
    → Within (references is ++ rs) bound m
    → remove_inputs is m ≡ ok m'
    → Within rs bound m'
unfolding remove_inputs
remove_inputs-Within [] rs bound m h e = subst (λ x. Within rs bound x) (ok-injective e) h
remove_inputs-Within (i ∷ is) rs bound m h e =
    let (m1, e1, e2) = >>=-eq_ok (del_item i.output_reference m) _ e in
    let (v, found, same) = del_item-eq_ok i.output_reference m e1 in
    remove_inputs-Within is rs bound m1
      (rw same (
        (erase-IsUnique _ m h.0.0, AllNonneg-erase value_of _ m h.0.1),
        rw (sum_except-erase value_of i.output_reference (references is ++ rs) m h.0.0) at h.1,
      ))
      e2

module _ ⦃c : Crypto⦄ where
  add_outputs-Within :
      (t : Transaction) (i : ℕ) (os : List Output) (rs : List OutputReference) (bound : ℤ)
      (m : UnspentOuts) {m' : UnspentOuts}
      → AllPaid os
      → Within rs bound m
      → add_outputs t i os m ≡ ok m'
      → Within rs (bound +ℤ sum_outputs os) m'
  unfolding add_outputs
  add_outputs-Within t i [] rs bound m p h e =
      subst (λ x. Within rs (bound +ℤ pos 0) x) (ok-injective e) (h.0, omega (int_laws, h.1))
  add_outputs-Within t i (o ∷ os) rs bound m p h e =
      let (x, e1, e2) = >>=-eq_ok (transaction_hash t) _ e in
      let (r, e3, e4) = >>=-eq_ok (new_output_reference x i) _ e2 in
      let rest =
        add_outputs-Within t (i + 1) os rs (bound +ℤ o.value) (insert r o m) p.1
          (
            (insert-IsUnique r o m h.0.0, AllNonneg-insert value_of r o m h.0.1 p.0),
            below_sum _ _ _ o.value (sum_except-insert value_of rs r o m h.0.1 p.0) h.1,
          )
          e4 in
      (rest.0, regrouped _ bound o.value (sum_outputs os) rest.1)

  transaction-Within :
      (t : Transaction) (rs : List OutputReference) (bound : ℤ) (m : UnspentOuts) {m' : UnspentOuts}
      → AllPaid t.outputs
      → Within (references t.inputs ++ rs) bound m
      → uto_apply_transaction m t false ≡ ok m'
      → Within rs (bound +ℤ sum_outputs t.outputs) m'
  unfolding uto_apply_transaction
  transaction-Within t rs bound m p h e =
      let (m1, e1, e2) = >>=-eq_ok (remove_inputs t.inputs m) _ e in
      add_outputs-Within t 0 t.outputs rs bound m1 p (remove_inputs-Within t.inputs rs bound m h e1)
        e2

  All-Within :
      (ts : List Transaction) (bound : ℤ) (m : UnspentOuts) {m' : UnspentOuts}
      → All (λ t. AllPaid t.outputs) ts
      → Within (references_all ts) bound m
      → uto_apply_all m ts ≡ ok m'
      → Within [] (bound +ℤ outputs_all ts) m'
  unfolding uto_apply_all
  All-Within [] bound m p h e =
      subst (λ x. Within [] (bound +ℤ pos 0) x) (ok-injective e) (h.0, omega (int_laws, h.1))
  All-Within (t ∷ ts) bound m p h e =
      let (m1, e1, e2) = >>=-eq_ok (uto_apply_transaction m t false) _ e in
      let rest =
        All-Within ts (bound +ℤ sum_outputs t.outputs) m1 p.1
          (transaction-Within t (references_all ts) bound m p.0 h e1) e2 in
      (rest.0, regrouped _ bound (sum_outputs t.outputs) (outputs_all ts) rest.1)

  -- Let the unspent outputs be sound, the outputs of a block not negative, and the block be applied
  -- without an error. Then the new unspent outputs are sound, and their total is at most that of the
  -- old ones which the transactions after the first do not spend, and all the block's outputs.
  pub uto_apply_block_bound :
      (b : Block) (first : Transaction) (rest : List Transaction) (m m' : UnspentOuts)
      → b.transactions ≡ first ∷ rest
      → IsSound m
      → AllPaid first.outputs
      → All (λ t. AllPaid t.outputs) rest
      → uto_apply_block m b ≡ ok m'
      → IsSound m'
        × (total m'
            ≤ℤ sum_except value_of (references_all rest) m
              +ℤ sum_outputs first.outputs
              +ℤ outputs_all rest)
  unfolding uto_apply_block uto_apply_transaction
  uto_apply_block_bound b first rest m m' shape sound p ps e =
      let (m1, e1, e2) = >>=-eq_ok (add_outputs first 0 first.outputs m) _ (rw shape at e) in
      let w =
        All-Within rest _ m1 ps
          (add_outputs-Within first 0 first.outputs (references_all rest)
            (sum_except value_of (references_all rest) m) m p (sound, omega arith) e1)
          e2 in
      (w.0, rw (sum_except-nil value_of m') at w.1)
