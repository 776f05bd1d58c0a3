-- ===== src/Consensus/Best.antt =====
-- The current chain of a state under `add_block` of skepticoin/coinstate.py.
use skepticoin.Crypto.{Crypto}
use skepticoin.CoinState.{CoinState, current_with}
use skepticoin.CoinState.Invariant.{Added, add_block_no_validation-Added}
use skepticoin.Datatypes.{Block, get_total_work, output_reference_eq}
use skepticoin.Prelude.{Bytes, some, ◌≡◌, ◌≤◌, ◌⊎◌}
use skepticoin.Prelude.Eq.{list_eq, nat_eq}
use skepticoin.Prelude.Map.{lookup}
use skepticoin.Prelude.Result.{ok}
use skepticoin.Prelude.{Bool-cases, ap, arith, inl, inr, none, ◌∙◌}
use skepticoin.Prelude.Eq.{◌≟◌}
use skepticoin.Prelude.Map.Laws.{get_item_ok, lookup-insert_self}
use mathlib.Core.Path.{subst}
use skepticoin.Cheating.{max_known_hash_height}
use skepticoin.Consensus.Checks.{after_checkpoints-IsFunded}
use skepticoin.Consensus.Supply.{add_block_parts, has_transactions}
use skepticoin.Consensus.Validate.{add_block}
use skepticoin.Datatypes.Hash.{block_hash}
use skepticoin.Prelude.{sym, ℕ, ◌<◌}
use skepticoin.Prelude.Eq.{≟_iff}
use skepticoin.Prelude.Map.Laws.{insert_here, insert_there, lookup-insert_ne}

-- The current chain ends in a block of the state, and no block of the state has more work.
pub record IsBest (s : CoinState) : Type 0 where
  pub current : Bytes
  pub head : Block
  pub current_set : s.current_chain_hash ≡ some current
  pub head_found : lookup current s.block_by_hash ≡ some head
  pub most :
      (h : Bytes) (b : Block)
      → lookup h s.block_by_hash ≡ some b
      → get_total_work b ≤ get_total_work head

-- The block that becomes current has at least the work of the one before it and of the new block.
chosen :
    (s : CoinState) (hash : Bytes) (b : Block) (old : IsBest s) {current : Bytes}
    → (old.current ≡ b.previous_block_hash → get_total_work old.head ≤ get_total_work b)
    → current_with s hash b ≡ ok current
    → ((current ≡ hash) × (get_total_work old.head ≤ get_total_work b))
      ⊎ ((current ≡ old.current) × (get_total_work b ≤ get_total_work old.head))
unfolding current_with
chosen s hash b old {current} grows h = elim (Bool-cases (old.current ≟ b.previous_block_hash)) [
  | inl parent ↦
      (let e : current ≡ hash = ground (arith, rw (old.current_set, parent) at h) in
        inl (e, grows ((≟_iff old.current b.previous_block_hash).0 parent)))
  | inr fork ↦
      (let found = get_item_ok old.current s.block_by_hash old.head_found in
        let e = rw (old.current_set, fork, found) at h in ground (arith, e))
]

module _ ⦃c : Crypto⦄ where
  -- A bound on the work of the new block and of the old head is one on the work of every block.
  work_bound :
      (s s' : CoinState) (b : Block) (old : IsBest s) (a : Added s b s') (w : ℕ)
      → get_total_work b ≤ w
      → get_total_work old.head ≤ w
      → (h : Bytes) (x : Block) → lookup h s'.block_by_hash ≡ some x
      → get_total_work x ≤ w
  work_bound s s' b old a w new before h x found = elim (Bool-cases (a.hash ≟ h)) [
    | inl here ↦
        (let same = insert_here h a.hash b s.block_by_hash here (rw a.blocks at found) in
          subst (λ y. get_total_work y ≤ w) same new)
    | inr there ↦
        (let le =
            old.most h x (insert_there h a.hash b s.block_by_hash there (rw a.blocks at found)) in
          omega (arith, le, before))
  ]

  Added-IsBest :
      (s s' : CoinState) (b : Block)
      → (old : IsBest s) → (a : Added s b s') → lookup a.hash s.block_by_hash ≡ none
      → (old.current ≡ b.previous_block_hash → get_total_work old.head ≤ get_total_work b)
      → IsBest s'
  Added-IsBest s s' b old a fresh grows = elim (chosen s a.hash b old grows a.current_found) [
    | inl (new, more) ↦ record {
      current = a.hash;
      head = b;
      current_set = a.current_set ∙ ap some new;
      head_found = rw a.blocks (lookup-insert_self a.hash b s.block_by_hash);
      most = work_bound s s' b old a (get_total_work b) (omega arith) more;
    }
    | inr (stays, less) ↦ record {
      current = old.current;
      head = old.head;
      current_set = a.current_set ∙ ap some stays;
      head_found = rw a.blocks (
          lookup-insert_ne a.hash old.current b s.block_by_hash
            (λ q. absurd (ground (arith, fresh, old.head_found, q)))
          ∙ old.head_found);
      most = work_bound s s' b old a (get_total_work old.head) less (omega arith);
    }
  ]

  -- The height of a block after the checkpoints is one more than its parent's.
  extends_head :
      (s s' : CoinState) (b : Block) (now : ℕ) (old : IsBest s)
      → max_known_hash_height < b.height
      → add_block s b now ≡ ok s'
      → old.current ≡ b.previous_block_hash
      → get_total_work old.head ≤ get_total_work b
  unfolding get_total_work
  extends_head s s' b now old above e parent =
      let parts = add_block_parts s b now s' e in
      let a = add_block_no_validation-Added s b s' parts.2 in
      let (first, others, shape) = has_transactions a.before a.outs b a.outs_found in
      let f = after_checkpoints-IsFunded s b first others shape above parts.1 in
      let found : some f.parent ≡ some old.head =
        sym f.parent_found ∙ (rw parent at old.head_found) in
      let same : f.parent ≡ old.head = ground (arith, found) in
      omega (arith, f.next_height, ap (λ (x : Block). x.height) same)

  -- If the current chain of a state ends in a block of it and no block of it has more work, then both
  -- hold again after `add_block` adds a block after the checkpoints whose hash is new to the state.
  pub add_block-IsBest :
      (s s' : CoinState) (b : Block) (now : ℕ)
      → IsBest s
      → max_known_hash_height < b.height
      → ((h : Bytes) → block_hash b ≡ ok h → lookup h s.block_by_hash ≡ none)
      → add_block s b now ≡ ok s'
      → IsBest s'
  add_block-IsBest s s' b now old above fresh e =
      let a = add_block_no_validation-Added s b s' (add_block_parts s b now s' e).2 in
      Added-IsBest s s' b old a (fresh a.hash a.hash_found) (extends_head s s' b now old above e)
