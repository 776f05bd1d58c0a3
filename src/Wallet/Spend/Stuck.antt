-- ===== src/Wallet/Spend/Stuck.antt =====
-- The references that a failed `create_spend_transaction` of skepticoin/wallet.py leaves marked.
use skepticoin.Datatypes.{output_reference_eq}
use skepticoin.Wallet.Spend.{Collected, collect_references}
use skepticoin.Balances.{UnspentOuts}
use skepticoin.Datatypes.{OutputReference}
use skepticoin.Prelude.{Bool-cases, List, [], arith, inl, inr, refl, true, ◌∷◌, ◌≡◌}
use skepticoin.Prelude.Eq.{list_eq, nat_eq, ≟_refl}
use skepticoin.Prelude.Int.{ℤ}
use skepticoin.Prelude.Map.Except.{mem_key}
use skepticoin.Wallet.Spend.{more}
use mathlib.Core.Path.{subst}
use skepticoin.Datatypes.{Output}
use skepticoin.Prelude.{Option-cases, false}
use skepticoin.Prelude.Int.{leb_ℤ}
use skepticoin.Prelude.Map.{lookup}
use skepticoin.Wallet.Spend.{collect}
use skepticoin.Balances.{Balances}
use skepticoin.Prelude.{Bytes}
use skepticoin.Prelude.Result.{Result, err, ok}
use skepticoin.Wallet.Spend.{collect_keys}
use skepticoin.CoinState.{CoinState, balances_at_head, outs_at_head}
use skepticoin.Crypto.{Crypto}
use skepticoin.Prelude.Int.{◌+ℤ◌}
use skepticoin.Prelude.Result.{plain_exception}
use skepticoin.Signing.{PublicKey}
use skepticoin.Wallet.Spend.{
  Outcome, Wallet, create_spend_transaction, enough, failed, finish_spend, references_of, start,
}
use skepticoin.Wallet.Spend.{spend_at}

abbrev MarkedIn : List OutputReference → List OutputReference → Type 0
MarkedIn before after = (r : OutputReference) → mem_key r before ≡ true → mem_key r after ≡ true

mark_grows :
    (r : OutputReference) (before after : List OutputReference)
    → MarkedIn (r ∷ before) after
    → MarkedIn before after
mark_grows r before after h q e = h q (ground (arith, e))

marked_first :
    (r : OutputReference) (before after : List OutputReference)
    → MarkedIn (r ∷ before) after
    → mem_key r after ≡ true
marked_first r before after h = h r (rw (≟_refl r) refl)

more_injective : {c d : Collected} → more c ≡ more d → c ≡ d
more_injective h = cc

-- A reference that is new is marked before the loop goes on.
taken_more :
    (outs : UnspentOuts) (needed : ℤ) (r : OutputReference) (rs : List OutputReference)
    (c : Collected) {c' : Collected}
    → mem_key r c.spent ≡ false
    → collect_references outs needed (r ∷ rs) c ≡ more c'
    → (o : Output) × (collect_references outs needed rs (collect r o c) ≡ more c')
unfolding collect_references
taken_more outs needed r rs c new e = elim (Option-cases (lookup r outs)) [
  | inl none_there ↦ absurd (ground (arith, rw (new, none_there) at e))
  | inr (o, there) ↦ elim (Bool-cases (leb_ℤ needed (collect r o c).value)) [
    | inl full ↦ absurd (ground (arith, rw (new, there, full) at e))
    | inr short ↦ (o, rw (new, there, short) at e)
  ]
]

references_stuck :
    (outs : UnspentOuts) (needed later : ℤ) (rs : List OutputReference) (c : Collected)
    {c' : Collected}
    → collect_references outs needed rs c ≡ more c'
    → MarkedIn c.spent c'.spent
      × ((d : Collected) → MarkedIn c'.spent d.spent → collect_references outs later rs d ≡ more d)
unfolding collect_references
references_stuck outs needed later [] c e =
    (subst (λ x. MarkedIn c.spent x.spent) (more_injective e) (λ r h. h), λ d h. refl)
references_stuck outs needed later (r ∷ rs) c e = elim (Bool-cases (mem_key r c.spent)) [
  | inl seen ↦
      (let (grows, stuck) = references_stuck outs needed later rs c (rw seen at e) in
        (grows, λ d h. rw (h r (grows r seen)) (stuck d h)))
  | inr new ↦
      (let (o, e') = taken_more outs needed r rs c new e in
        let (grows, stuck) = references_stuck outs needed later rs (collect r o c) e' in
        (
          mark_grows r c.spent _ grows,
          λ d h. rw (h r (marked_first r c.spent _ grows)) (stuck d h),
        ))
]

-- The outer loop goes on after a key whose references did not suffice.
after_key :
    (outs : UnspentOuts) (balances : Result Balances) (needed : ℤ) (k secret : Bytes)
    (ks : List (Bytes × Bytes)) (c : Collected) {c' : Collected}
    → collect_keys outs balances needed ((k, secret) ∷ ks) c ≡ more c'
    → (rs : List OutputReference) × (c1 : Collected) × (references_of balances k ≡ ok rs)
      × (collect_references outs needed rs c ≡ more c1)
      × (collect_keys outs balances needed ks c1 ≡ more c')
unfolding collect_keys
after_key outs balances needed k secret ks c {c'} e = by_references (references_of balances k) refl
  where
    by_outcome :
        (rs : List OutputReference) (r : Outcome)
        → references_of balances k ≡ ok rs
        → collect_references outs needed rs c ≡ r
        → (rs' : List OutputReference) × (c1 : Collected) × (references_of balances k ≡ ok rs')
          × (collect_references outs needed rs' c ≡ more c1)
          × (collect_keys outs balances needed ks c1 ≡ more c')
    by_outcome rs (more c1) q h = (rs, c1, q, h, rw (q, h) at e)
    by_outcome rs (enough c1) q h = absurd (ground (arith, rw (q, h) at e))
    by_outcome rs (failed x c1) q h = absurd (ground (arith, rw (q, h) at e))

    by_references :
        (r : Result (List OutputReference))
        → references_of balances k ≡ r
        → (rs : List OutputReference) × (c1 : Collected) × (references_of balances k ≡ ok rs)
          × (collect_references outs needed rs c ≡ more c1)
          × (collect_keys outs balances needed ks c1 ≡ more c')
    by_references (err x) q = absurd (ground (arith, rw q at e))
    by_references (ok rs) q = by_outcome rs (collect_references outs needed rs c) q refl

keys_stuck :
    (outs : UnspentOuts) (balances : Result Balances) (needed later : ℤ) (ks : List (Bytes × Bytes))
    (c : Collected) {c' : Collected}
    → collect_keys outs balances needed ks c ≡ more c'
    → MarkedIn c.spent c'.spent
      × ((d : Collected)
          → MarkedIn c'.spent d.spent
          → collect_keys outs balances later ks d ≡ more d)
unfolding collect_keys
keys_stuck outs balances needed later [] c e =
    (subst (λ x. MarkedIn c.spent x.spent) (more_injective e) (λ r h. h), λ d h. refl)
keys_stuck outs balances needed later ((k, secret) ∷ ks) c e =
    let (rs, c1, q, h, rest) = after_key outs balances needed k secret ks c e in
    let (grows, stuck) = references_stuck outs needed later rs c h in
    let (grows', stuck') = keys_stuck outs balances needed later ks c1 rest in
    (λ r m. grows' r (grows r m), λ d m. rw (q, stuck d (λ r m'. m r (grows' r m'))) (stuck' d m))

module _ ⦃c : Crypto⦄ where
  -- Let the loops of `create_spend_transaction` end without enough value, so that it fails with
  -- "Insufficient balance". Then a call on the wallet that it leaves behind and the same coin state
  -- fails too, for every value, fee, receiver and change address, and leaves that wallet as it is.
  pub create_spend_transaction_stuck :
      (w : Wallet) (s : CoinState) (outs : UnspentOuts) (value fee value' fee' : ℤ)
      (key change key' change' : PublicKey) (left : Collected)
      → outs_at_head s ≡ ok outs
      → collect_keys outs
          (balances_at_head s).0
          (value +ℤ fee)
          w.keypairs
          (start w.spent_transaction_outputs)
        ≡ more left
      → (create_spend_transaction w s value fee key change
          ≡ (err plain_exception, record w { spent_transaction_outputs = left.spent }))
        × (create_spend_transaction
              (record w { spent_transaction_outputs = left.spent })
              s
              value'
              fee'
              key'
              change'
            ≡ (err plain_exception, record w { spent_transaction_outputs = left.spent }))
  unfolding create_spend_transaction finish_spend spend_at
  create_spend_transaction_stuck w s outs value fee value' fee' key change key' change' left found
        e =
      let (grows, stuck) =
        keys_stuck outs (balances_at_head s).0 (value +ℤ fee) (value' +ℤ fee') w.keypairs
          (start w.spent_transaction_outputs) e in
      (rw (found, e) refl, rw (found, stuck (start left.spent) (λ r m. m)) refl)
