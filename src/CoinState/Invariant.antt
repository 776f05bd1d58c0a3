-- ===== src/CoinState/Invariant.antt =====
-- What `add_block_no_validation` of skepticoin/coinstate.py does to each part of the state.
use skepticoin.Datatypes.{output_reference_eq}
use mathlib.Core.Path.{subst}
use skepticoin.Balances.{UnspentOuts, uto_apply_block}
use skepticoin.CoinState.{
  CoinState, add_block_no_validation, current_with, heads_with, heights_with, outs_before,
}
use skepticoin.Crypto.{Crypto}
use skepticoin.Datatypes.{Block}
use skepticoin.Datatypes.Hash.{block_hash}
use skepticoin.Prelude.{Bytes, refl, some, ◌≡◌}
use skepticoin.Prelude.Eq.{list_eq, nat_eq}
use skepticoin.Prelude.Map.{insert}
use skepticoin.Prelude.Result.{>>=-eq_ok, ok, ok-injective}

module _ ⦃c : Crypto⦄ where
  -- The parts of a state to which a block was added.
  pub record Added (s : CoinState) (b : Block) (s' : CoinState) : Type 0 where
    pub before : UnspentOuts
    pub outs : UnspentOuts
    pub hash : Bytes
    pub before_found : outs_before s b ≡ ok before
    pub outs_found : uto_apply_block before b ≡ ok outs
    pub hash_found : block_hash b ≡ ok hash
    pub blocks : s'.block_by_hash ≡ insert hash b s.block_by_hash
    pub unspent :
        s'.unspent_transaction_outs_by_hash ≡ insert hash outs s.unspent_transaction_outs_by_hash
    pub heights : heights_with s hash b ≡ ok s'.block_by_height_by_hash
    pub new_heads : s'.heads ≡ heads_with s hash b
    pub current : Bytes
    pub current_found : current_with s hash b ≡ ok current
    pub current_set : s'.current_chain_hash ≡ some current

  pub add_block_no_validation-Added :
      (s : CoinState) (b : Block) (s' : CoinState)
      → add_block_no_validation s b ≡ ok s'
      → Added s b s'
  unfolding add_block_no_validation
  add_block_no_validation-Added s b s' e =
      let (before, h1, e1) = >>=-eq_ok (outs_before s b) _ e in
      let (outs, h2, e2) = >>=-eq_ok (uto_apply_block before b) _ e1 in
      let (hash, h3, e3) = >>=-eq_ok (block_hash b) _ e2 in
      let (heights, h4, e4) = >>=-eq_ok (heights_with s hash b) _ e3 in
      let (current, h5, e5) = >>=-eq_ok (current_with s hash b) _ e4 in
      subst (λ r. Added s b r) (ok-injective e5)
        (record {
          before = before;
          outs = outs;
          hash = hash;
          before_found = h1;
          outs_found = h2;
          hash_found = h3;
          blocks = refl;
          unspent = refl;
          heights = h4;
          new_heads = refl;
          current = current;
          current_found = h5;
          current_set = refl;
        })
