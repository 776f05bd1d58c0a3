-- ===== src/Consensus/Supply.antt =====
-- The money in the unspent outputs at the blocks of a state (`add_block` of
-- skepticoin/coinstate.py).
use mathlib.Core.Path.{subst₂}
use native.Mathlib.Numerals.{add-one}
use skepticoin.Datatypes.{output_reference_eq}
use skepticoin.Balances.{UnspentOuts, uto_apply_block}
use skepticoin.CoinState.{CoinState, is_genesis, outs_before, add_block_no_validation}
use skepticoin.Balances.Unspent.{
  IsSound, outputs_all, references_all, total, uto_apply_block_bound, value_of,
}
use skepticoin.Consensus.{get_block_subsidy}
use skepticoin.Consensus.Checks.{IsFunded, IsPaid}
use skepticoin.Consensus.Seen.{fees-sum}
use skepticoin.Consensus.Subsidy.{supply}
use skepticoin.Crypto.{Crypto}
use skepticoin.Datatypes.{Block, Transaction, thin_air_hash}
use skepticoin.Prelude.{Bytes, List, [], arith, none, some, ◌+◌, ◌∙◌, ◌∷◌, ◌≡◌}
use skepticoin.Prelude.Eq.{list_eq, nat_eq}
use skepticoin.Prelude.Int.{int_laws, pos, ℤ, ◌+ℤ◌, ◌≤ℤ◌}
use skepticoin.Prelude.Map.{lookup}
use skepticoin.Prelude.Map.Except.{sum_except, sum_except-nil, sum_except-same}
use skepticoin.Prelude.Result.{ok}
use skepticoin.Cheating.{max_known_hash_height}
use skepticoin.CoinState.Invariant.{Added, add_block_no_validation-Added}
use skepticoin.Consensus.Subsidy.{supply-le-max_sashimi}
use skepticoin.Consensus.Validate.{add_block, validate_block_by_itself, validate_block_in_coinstate}
use skepticoin.Datatypes.Hash.{block_hash}
use skepticoin.Params.{max_sashimi}
use skepticoin.Prelude.{ap, refl, sym, ℕ, ◌<◌, ◌≢◌}
use skepticoin.Prelude.Eq.{≟_iff}
use skepticoin.Prelude.Map.{get_item}
use skepticoin.Prelude.Map.Laws.{lookup-insert_ne}
use skepticoin.Prelude.Result.{>>=-eq_ok}
use mathlib.Core.Path.{subst}
use skepticoin.Consensus.Checks.{after_checkpoints-IsFunded, block-IsPaid}
use skepticoin.Prelude.{Bool-cases, inl, inr}
use skepticoin.Prelude.Eq.{◌≟◌}
use skepticoin.Prelude.Map.Laws.{insert_here, insert_there}

balance_of_block :
    (after x t paid fees outs subsidy : ℤ)
    → after ≤ℤ x +ℤ paid +ℤ outs
    → x +ℤ fees +ℤ outs ≡ t
    → paid ≤ℤ fees +ℤ subsidy
    → after ≤ℤ t +ℤ subsidy
balance_of_block after x t paid fees outs subsidy h1 h2 h3 = rw (← h2) (omega int_laws)

module _ ⦃c : Crypto⦄ where
  -- A funded block grows the money by at most its subsidy.
  block_money :
      (s : CoinState) (b : Block) (first : Transaction) (others : List Transaction)
      (m' : UnspentOuts)
      → b.transactions ≡ first ∷ others
      → IsPaid b first others
      → (f : IsFunded s b first others) → IsSound f.outs
      → uto_apply_block f.outs b ≡ ok m'
      → IsSound m' × (total m' ≤ℤ total f.outs +ℤ pos (get_block_subsidy b.height))
  block_money s b first others m' e p f sound h =
      let (sound', bound) =
        uto_apply_block_bound b first others f.outs m' e sound p.first_paid p.others_paid h in
      let (seen, sum, adds) = fees-sum f.outs sound.0 others [] f.fees p.distinct f.fees_found in
      let same : sum_except value_of (references_all others) f.outs
          ≡ sum_except value_of seen f.outs =
        sum_except-same value_of (references_all others) seen f.outs
          (λ k. ground (arith, adds k)) in
      (
        sound',
        balance_of_block _ _ _ _ f.fees (outputs_all others) _ (rw same at bound)
            (sum ∙ sum_except-nil value_of f.outs) f.funded,
      )

  -- The unspent outputs at every block are sound and hold no more than the subsidies of the chain
  -- to it; and no block has the hash that marks a missing parent.
  pub record IsSolvent (s : CoinState) : Type 0 where
    pub no_thin_air : lookup thin_air_hash s.block_by_hash ≡ none
    pub at :
        (h : Bytes) (b : Block) (m : UnspentOuts)
        → lookup h s.block_by_hash ≡ some b
        → lookup h s.unspent_transaction_outs_by_hash ≡ some m
        → IsSound m × (total m ≤ℤ pos (supply (b.height + 1)))

  within_supply :
      (height : ℕ) (after before : ℤ)
      → after ≤ℤ before +ℤ pos (get_block_subsidy height)
      → before ≤ℤ pos (supply height)
      → after ≤ℤ pos (supply (height + 1))
  within_supply height after before h k =
      let next : supply (height + 1) ≡ supply height + get_block_subsidy height =
        rw add-one (unfold supply in refl) in
      omega (int_laws, next)

  -- The parts of a call of `add_block` that succeeds.
  pub add_block_parts :
      (s : CoinState) (b : Block) (now : ℕ) (s' : CoinState)
      → add_block s b now ≡ ok s'
      → (validate_block_by_itself b now ≡ ok tt)
        × (validate_block_in_coinstate b s ≡ ok tt)
        × (add_block_no_validation s b ≡ ok s')
  unfolding add_block
  add_block_parts s b now s' e =
      let (_, h1, e1) = >>=-eq_ok (validate_block_by_itself b now) _ e in
      let (_, h2, h3) = >>=-eq_ok (validate_block_in_coinstate b s) _ e1 in (h1, h2, h3)

  -- Only a block with a first transaction can be applied.
  pub has_transactions :
      (m m' : UnspentOuts) (b : Block)
      → uto_apply_block m b ≡ ok m'
      → (first : Transaction) × (others : List Transaction) × (b.transactions ≡ first ∷ others)
  unfolding uto_apply_block
  has_transactions m m' b h = by_list b.transactions refl
    where
      by_list :
          (ts : List Transaction)
          → b.transactions ≡ ts
          → (first : Transaction) × (others : List Transaction) × (b.transactions ≡ first ∷ others)
      by_list [] e = absurd (ground (arith, rw e at h))
      by_list (t ∷ ts) e = (t, ts, e)

  -- With a parent in the state, the block starts from the parent's unspent outputs.
  starts_from_parent :
      (s : CoinState) (b : Block) (before outs : UnspentOuts) (p : Block)
      → lookup thin_air_hash s.block_by_hash ≡ none
      → lookup b.previous_block_hash s.block_by_hash ≡ some p
      → lookup b.previous_block_hash s.unspent_transaction_outs_by_hash ≡ some outs
      → outs_before s b ≡ ok before
      → before ≡ outs
  unfolding outs_before is_genesis get_item
  starts_from_parent s b before outs p no_air found outs_found h =
      ground (arith, ≟_iff b.previous_block_hash thin_air_hash)

  new_block_money :
      (s : CoinState) (b : Block) (now : ℕ) (s' : CoinState)
      → IsSolvent s
      → max_known_hash_height < b.height
      → add_block s b now ≡ ok s'
      → (a : Added s b s') → IsSound a.outs × (total a.outs ≤ℤ pos (supply (b.height + 1)))
  new_block_money s b now s' h above e a =
      let parts = add_block_parts s b now s' e in
      let (first, others, shape) = has_transactions a.before a.outs b a.outs_found in
      let f = after_checkpoints-IsFunded s b first others shape above parts.1 in
      let p = block-IsPaid b first others now shape parts.0 in
      let old = h.at b.previous_block_hash f.parent f.outs f.parent_found f.outs_found in
      let same =
        starts_from_parent s b a.before f.outs f.parent h.no_thin_air f.parent_found f.outs_found
          a.before_found in
      let new =
        block_money s b first others a.outs shape p f old.0
          (subst (λ m. uto_apply_block m b ≡ ok a.outs) same a.outs_found) in
      (new.0, within_supply b.height _ _ new.1 (rw (← f.next_height) at old.1))

  -- A block that is added after the checkpoints keeps the money within the subsidies.
  add_block-IsSolvent :
      (s : CoinState) (b : Block) (now : ℕ) (s' : CoinState)
      → IsSolvent s
      → max_known_hash_height < b.height
      → block_hash b ≢ ok thin_air_hash
      → add_block s b now ≡ ok s'
      → IsSolvent s'
  add_block-IsSolvent s b now s' h above air e =
      let a = add_block_no_validation-Added s b s' (add_block_parts s b now s' e).2 in
      let money = new_block_money s b now s' h above e a in
      record {
        no_thin_air = rw a.blocks (
            lookup-insert_ne a.hash thin_air_hash b s.block_by_hash
              (λ q. air (a.hash_found ∙ ap ok (sym q)))
            ∙ h.no_thin_air);
        at = λ k b' m fb fm. elim (Bool-cases (a.hash ≟ k)) [
          | inl new ↦
              subst₂ (λ x y. IsSound y × (total y ≤ℤ pos (supply (x.height + 1))))
                (insert_here k a.hash b s.block_by_hash new (rw a.blocks at fb))
                (insert_here k a.hash a.outs s.unspent_transaction_outs_by_hash new
                  (rw a.unspent at fm))
                money
          | inr old ↦
              h.at k b' m (insert_there k a.hash b s.block_by_hash old (rw a.blocks at fb)) (
                insert_there k a.hash a.outs s.unspent_transaction_outs_by_hash old
                  (rw a.unspent at fm))
        ];
      }

  -- States that come of one another by adding valid blocks after the checkpoints.
  pub data Grows (s : CoinState) : CoinState → Type 0 where
    same : Grows s s
    add :
        {t u : CoinState} (b : Block) (now : ℕ)
        → Grows s t
        → max_known_hash_height < b.height
        → block_hash b ≢ ok thin_air_hash
        → add_block t b now ≡ ok u
        → Grows s u

  Grows-IsSolvent : {s s' : CoinState} → IsSolvent s → Grows s s' → IsSolvent s'
  Grows-IsSolvent h same = h
  Grows-IsSolvent {s' = u} h (add {t} b now g above air e) =
      add_block-IsSolvent t b now u (Grows-IsSolvent h g) above air e

  -- From a state in which no block has the hash of thin air, and the unspent outputs at each block
  -- are sound and within the subsidies up to it, add any blocks after the checkpoints, on any forks,
  -- none of which has the hash of thin air, by `add_block`: the unspent outputs at any block of the
  -- state then hold at most MAX_SASHIMI.
  pub money_limit :
      (s s' : CoinState) (h : Bytes) (b : Block) (m : UnspentOuts)
      → IsSolvent s
      → Grows s s'
      → lookup h s'.block_by_hash ≡ some b
      → lookup h s'.unspent_transaction_outs_by_hash ≡ some m
      → total m ≤ℤ pos max_sashimi
  money_limit s s' h b m solvent g fb fm =
      let r = (Grows-IsSolvent solvent g).at h b m fb fm in
      omega (arith, r.1, supply-le-max_sashimi (b.height + 1))
