-- ===== src/CoinState/Forks.antt =====
-- `CoinState.zero` and `CoinState.forks` of skepticoin/coinstate.py.
use skepticoin.Crypto.{Crypto}
use skepticoin.CoinState.{CoinState, empty, add_block_no_validation, by_height_at_head}
use skepticoin.Datatypes.{Block}
use skepticoin.Datatypes.Hash.{block_hash}
use skepticoin.Datatypes.Wire.{deserialize_block}
use skepticoin.Prelude.{Bytes, List, [], ◌∷◌, ℕ, Bool}
use skepticoin.Prelude.Result.{Result, ok, err, recursion, ◌>>=◌}
use skepticoin.Prelude.{if◌then◌else◌, length, none, not, some, suc, true, zero, ◌+◌}
use skepticoin.Prelude.Eq.{list_eq, nat_eq, ◌≟◌}
use skepticoin.Prelude.Map.{Map, get_item, lookup}

module _ ⦃c : Crypto⦄ where
  -- The bytes are those of skepticoin/genesis.py.
  unfoldable pub zero_state : Bytes → Result CoinState
  zero_state genesis_block_data = do
    r ← deserialize_block genesis_block_data
    add_block_no_validation empty r.0

  -- Whether the current chain has another block, or none, at the block's height.
  unfoldable pub is_off_chain : CoinState → Block → Result Bool
  is_off_chain s b = do
    main ← by_height_at_head s
    elim (lookup b.height main) [
      | none ↦ ok true
      | some other ↦ (do
        other_hash ← block_hash other
        own_hash ← block_hash b
        ok (not (other_hash ≟ own_hash)))
    ]

  -- The walk back of `_find_lca_with_main`, over at most as many blocks as there are.
  unfoldable pub find_lca : ℕ → CoinState → Block → Result Block
  find_lca zero s b = err recursion
  find_lca (suc fuel) s b = do
    off ← is_off_chain s b
    let further = (do p ← get_item b.previous_block_hash s.block_by_hash; find_lca fuel s p)
    if off then further else ok b

  unfoldable pub forks_of : CoinState → Map Bytes Block → Result (List (Block × Block))
  forks_of s [] = ok []
  forks_of s ((h, b) ∷ heads) = do
    main ← find_lca (length s.block_by_hash + 1) s b
    rest ← forks_of s heads
    ok ((b, main) ∷ rest)

  unfoldable pub forks : CoinState → Result (List (Block × Block))
  forks s = forks_of s s.heads
