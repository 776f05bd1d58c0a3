-- ===== src/Consensus/Seen.antt =====
-- The references that the transactions of a block spend, and the fees (skepticoin/consensus.py).
use skepticoin.Datatypes.{output_reference_eq}
use skepticoin.Balances.{UnspentOuts}
use skepticoin.Balances.Unspent.{references, value_of}
use skepticoin.Consensus.{total_input_value}
use skepticoin.Consensus.Validate.{add_new_references}
use skepticoin.Datatypes.{Input, OutputReference}
use skepticoin.Prelude.{List, [], arith, refl, ◌++◌, ◌||◌, ◌∷◌, ◌≡◌}
use skepticoin.Prelude.Int.{ℤ, ◌+ℤ◌}
use skepticoin.Prelude.Map.{IsUnique}
use skepticoin.Prelude.Map.Except.{mem_key, sum_except}
use skepticoin.Prelude.Result.{ok}
use skepticoin.Balances.Unspent.{outputs_all, references_all}
use skepticoin.Consensus.{get_block_fees}
use skepticoin.Consensus.Validate.{check_references}
use skepticoin.Datatypes.{Transaction}
use skepticoin.Prelude.{Bool, ap, false, sym, ◌∙◌}
use skepticoin.Prelude.Eq.{list_eq, nat_eq, ◌≟◌}
use skepticoin.Prelude.Int.{int_laws, ◌-ℤ◌}
use skepticoin.Prelude.Map.{get_item}
use skepticoin.Prelude.Map.Except.{sum_except-some}
use skepticoin.Prelude.Map.Laws.{get_item-eq_ok}
use skepticoin.Prelude.Result.{>>=-eq_ok, ok-injective}
use skepticoin.Consensus.{get_transaction_fee}
use skepticoin.Datatypes.{Output, sum_outputs}
use skepticoin.Prelude.{some}
use skepticoin.Prelude.Map.{lookup}

mem_key-append :
    (k : OutputReference) (xs ys : List OutputReference)
    → mem_key k (xs ++ ys) ≡ (mem_key k xs || mem_key k ys)
mem_key-append k [] ys = refl
mem_key-append k (x ∷ xs) ys = ground (arith, mem_key-append k xs ys)

-- The references of `new` are added to those of `old`, in some order.
abbrev pub Adds : List OutputReference → List OutputReference → List OutputReference → Type 0
Adds seen new old = (k : OutputReference) → mem_key k seen ≡ (mem_key k new || mem_key k old)

new_reference :
    (i : Input) (is : List Input) (seen : List OutputReference) {seen' : List OutputReference}
    → add_new_references seen (i ∷ is) ≡ ok seen'
    → (mem_key i.output_reference seen ≡ false)
      × (add_new_references (i.output_reference ∷ seen) is ≡ ok seen')
unfolding add_new_references
new_reference i is seen e = ground arith

total_input_value_cons :
    (i : Input) (is : List Input) (m : UnspentOuts) {v : ℤ}
    → total_input_value (i ∷ is) m ≡ ok v
    → (o : Output) × (w : ℤ) × (lookup i.output_reference m ≡ some o)
      × (total_input_value is m ≡ ok w)
      × (o.value +ℤ w ≡ v)
unfolding total_input_value
total_input_value_cons i is m f =
    let (o, f1, f2) = >>=-eq_ok (get_item i.output_reference m) _ f in
    let (w, f3, f4) = >>=-eq_ok (total_input_value is m) _ f2 in
    (o, w, get_item-eq_ok i.output_reference m f1, f3, ok-injective f4)

get_block_fees_cons :
    (t : Transaction) (ts : List Transaction) (m : UnspentOuts) {fees : ℤ}
    → get_block_fees (t ∷ ts) m ≡ ok fees
    → (v : ℤ) × (w : ℤ) × (total_input_value t.inputs m ≡ ok v)
      × (get_block_fees ts m ≡ ok w)
      × (v -ℤ sum_outputs t.outputs +ℤ w ≡ fees)
unfolding get_block_fees get_transaction_fee
get_block_fees_cons t ts m f =
    let (x, f1, f2) = >>=-eq_ok (get_transaction_fee t m) _ f in
    let (v, f3, f4) = >>=-eq_ok (total_input_value t.inputs m) _ f1 in
    let (w, f5, f6) = >>=-eq_ok (get_block_fees ts m) _ f2 in
    (v, w, f3, f5, ap (λ y. y +ℤ w) (ok-injective f4) ∙ ok-injective f6)

check_references_cons :
    (seen : List OutputReference) (t : Transaction) (ts : List Transaction)
    → check_references seen (t ∷ ts) ≡ ok tt
    → (seen' : List OutputReference) × (add_new_references seen t.inputs ≡ ok seen')
      × (check_references seen' ts ≡ ok tt)
unfolding check_references
check_references_cons seen t ts e = >>=-eq_ok (add_new_references seen t.inputs) _ e

gather : (a b c v w : ℤ) → a +ℤ w ≡ b → b +ℤ v ≡ c → a +ℤ (v +ℤ w) ≡ c
gather a b c v w h k = rw (← k, ← h) (omega int_laws)

gather_fee :
    (a b c v o fees outs : ℤ)
    → a +ℤ fees +ℤ outs ≡ b
    → b +ℤ v ≡ c
    → a +ℤ (v -ℤ o +ℤ fees) +ℤ (o +ℤ outs) ≡ c
gather_fee a b c v o fees outs h k = rw (← k, ← h) (omega int_laws)

or_shuffle : (a b c : Bool) → (a || (b || c)) ≡ ((b || a) || c)
or_shuffle a b c = ground arith

module _ (m : UnspentOuts) (u : IsUnique m) where
  -- What the inputs bring in is what their references leave out.
  inputs-sum :
      (is : List Input) (seen seen' : List OutputReference) (v : ℤ)
      → add_new_references seen is ≡ ok seen'
      → total_input_value is m ≡ ok v
      → (sum_except value_of seen' m +ℤ v ≡ sum_except value_of seen m)
        × Adds seen' (references is) seen
  inputs-sum [] seen seen' v e f =
      unfold add_new_references total_input_value in
      (
        rw (← (ok-injective e), ← (ok-injective f)) (omega int_laws),
        λ k. ap (mem_key k) (sym (ok-injective e)),
      )
  inputs-sum (i ∷ is) seen seen' v e f =
      let (fresh, e') = new_reference i is seen e in
      let (o, w, found, f', same) = total_input_value_cons i is m f in
      let (s, adds) = inputs-sum is (i.output_reference ∷ seen) seen' w e' f' in
      (
        rw (← same) (
            gather _ _ _ o.value w s
              (sum_except-some value_of i.output_reference seen m u fresh found)),
        λ k.
            adds k
            ∙ or_shuffle (mem_key k (references is)) (i.output_reference ≟ k) (mem_key k seen),
      )

  -- The fees and the outputs are what the spent references leave out.
  pub fees-sum :
      (ts : List Transaction) (seen : List OutputReference) (fees : ℤ)
      → check_references seen ts ≡ ok tt
      → get_block_fees ts m ≡ ok fees
      → (seen' : List OutputReference) × (sum_except value_of seen' m +ℤ fees +ℤ outputs_all ts
          ≡ sum_except value_of seen m)
        × Adds seen' (references_all ts) seen
  fees-sum [] seen fees e f =
      unfold get_block_fees in (seen, rw (← (ok-injective f)) (omega int_laws), λ k. refl)
  fees-sum (t ∷ ts) seen fees e f =
      let (seen1, e1, e2) = check_references_cons seen t ts e in
      let (v, w, f1, f2, same) = get_block_fees_cons t ts m f in
      let (s1, adds1) = inputs-sum t.inputs seen seen1 v e1 f1 in
      let (seen', s2, adds2) = fees-sum ts seen1 w e2 f2 in
      (
        seen',
        rw (← same) (gather_fee _ _ _ v (sum_outputs t.outputs) w (outputs_all ts) s2 s1),
        λ k.
            ground
              (arith, adds1 k, adds2 k, mem_key-append k (references t.inputs) (references_all ts)),
      )
