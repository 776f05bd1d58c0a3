-- ===== src/CoinState/Reset.antt =====
-- What a block without a parent does to the blocks by height of skepticoin/coinstate.py.
use skepticoin.Crypto.{Crypto}
use skepticoin.CoinState.{CoinState, is_genesis, heights_with, add_block_no_validation}
use skepticoin.CoinState.Invariant.{add_block_no_validation-Added}
use skepticoin.Datatypes.{Block}
use skepticoin.Datatypes.Hash.{block_hash}
use skepticoin.Prelude.{Bytes, false, refl, true, none, ◌≡◌, ◌≢◌}
use skepticoin.Prelude.Eq.{list_eq, nat_eq, ≟_iff}
use skepticoin.Prelude.Map.{get_item, lookup}
use skepticoin.Prelude.Map.Laws.{lookup-insert_ne}
use skepticoin.Prelude.Result.{Error, Result, err, key_error, ok}
use skepticoin.Prelude.{arith, sym, ℕ, ◌∙◌}
use skepticoin.Prelude.Map.{Map}
use skepticoin.Prelude.Result.{ok-injective}

module _ ⦃c : Crypto⦄ where
  alone :
      (s : CoinState) (b : Block) (h k : Bytes) (heights : Map Bytes (Map ℕ Block))
      → is_genesis b ≡ true
      → heights_with s h b ≡ ok heights
      → k ≢ h
      → lookup k heights ≡ none
  unfolding heights_with lookup
  alone s b h k heights g e n = ground (arith, ≟_iff h k)

  no_parent :
      (s : CoinState) (h : Bytes) (b : Block)
      → is_genesis b ≡ false
      → lookup b.previous_block_hash s.block_by_height_by_hash ≡ none
      → heights_with s h b ≡ err key_error
  unfolding heights_with get_item
  no_parent s h b g e = rw (g, e) refl

  not_added :
      (s : CoinState) (b : Block) (r : Result CoinState)
      → add_block_no_validation s b ≡ r
      → is_genesis b ≡ false
      → lookup b.previous_block_hash s.block_by_height_by_hash ≡ none
      → (x : Error) × (r ≡ err x)
  not_added s b (err x) e g none_there = (x, refl)
  not_added s b (ok s') e g none_there =
      let a = add_block_no_validation-Added s b s' e in
      absurd (ground (arith, a.heights, no_parent s a.hash b g none_there))

  -- After a block without a parent was added to a state, no other block can be built on: adding a
  -- block that has a parent, and another one than the new block, raises, although the new state has
  -- under the hash of that parent what the old one had.
  pub heights_reset :
      (s s' : CoinState) (b child : Block) (h : Bytes)
      → is_genesis b ≡ true
      → block_hash b ≡ ok h
      → add_block_no_validation s b ≡ ok s'
      → is_genesis child ≡ false
      → child.previous_block_hash ≢ h
      → ((x : Error) × (add_block_no_validation s' child ≡ err x))
        × (lookup child.previous_block_hash s'.block_by_hash
            ≡ lookup child.previous_block_hash s.block_by_hash)
  heights_reset s s' b child h g hash_found e orphan n =
      let k = child.previous_block_hash in
      let a = add_block_no_validation-Added s b s' e in
      let same : a.hash ≡ h = ok-injective (sym a.hash_found ∙ hash_found) in
      let other : k ≢ a.hash = rw same n in
      (
        not_added s' child _ refl orphan
            (alone s b a.hash k s'.block_by_height_by_hash g a.heights other),
        rw a.blocks (lookup-insert_ne a.hash k b s.block_by_hash other),
      )
