-- ===== src/CoinState.antt =====
-- skepticoin/coinstate.py: the tree of blocks with what is known at each of them, its heads and the
-- current chain. The state is immutable: adding a block gives a new one.
pub mod Invariant
pub mod Forks
pub mod Reset
use skepticoin.Crypto
use skepticoin.Datatypes.{output_reference_eq}
use skepticoin.Balances.{Balances, UnspentOuts, uto_apply_block}
use skepticoin.Crypto.{Crypto}
use skepticoin.Datatypes.{Block, get_total_work, thin_air_hash}
use skepticoin.Datatypes.Hash.{block_hash}
use skepticoin.Prelude.{Bool, Bytes, Option, [], if◌then◌else◌, ltb, none, some, ℕ, ◌∷◌}
use skepticoin.Prelude.Eq.{list_eq, nat_eq, ◌≟◌}
use skepticoin.Prelude.Map.{Map, contains, erase, get_item, insert}
use skepticoin.Prelude.Result.{Result, assertion_error, err, key_error, ok, ◌>>=◌, ◌>>◌}
use skepticoin.Balances.Chain.{
  PublicKeyBalances, get_balances, new_public_key_balances, public_key_balances_by_hash,
}

pub record CoinState : Type 0 where
  pub block_by_hash : Map Bytes Block
  pub unspent_transaction_outs_by_hash : Map Bytes UnspentOuts
  pub block_by_height_by_hash : Map Bytes (Map ℕ Block)
  -- the blocks without children
  pub heads : Map Bytes Block
  pub current_chain_hash : Option Bytes
  pub public_key_balances_by_hash : PublicKeyBalances

-- `CoinState.empty`
abbrev pub empty : CoinState
empty = record {
  block_by_hash = [];
  unspent_transaction_outs_by_hash = [];
  block_by_height_by_hash = [];
  heads = [];
  current_chain_hash = none;
  public_key_balances_by_hash = record { block_by_hash = []; cache = [] };
}

unfoldable pub is_genesis : Block → Bool
is_genesis b = b.previous_block_hash ≟ thin_air_hash

-- The unspent outputs that a block starts from.
unfoldable pub outs_before : CoinState → Block → Result UnspentOuts
outs_before s b =
    if is_genesis b
    then ok []
    else get_item b.previous_block_hash s.unspent_transaction_outs_by_hash

-- A block with no parent starts a map of its own, in which no other block is.
unfoldable pub heights_with : CoinState → Bytes → Block → Result (Map Bytes (Map ℕ Block))
heights_with s hash b = if is_genesis b then ok ((hash, (0, b) ∷ []) ∷ []) else (do
  heights ← get_item b.previous_block_hash s.block_by_height_by_hash
  ok (insert hash (insert b.height b heights) s.block_by_height_by_hash))

-- The block takes its parent's place among the heads.
unfoldable pub heads_with : CoinState → Bytes → Block → Map Bytes Block
heads_with s hash b = insert hash b (
    if contains b.previous_block_hash s.heads then erase b.previous_block_hash s.heads else s.heads)

-- The chain that becomes the current one: the block's own if it extends the current chain or has
-- more work than it; of two with as much work, the one that was there.
unfoldable pub current_with : CoinState → Bytes → Block → Result Bytes
current_with s hash b = elim s.current_chain_hash [
  | none ↦ ok hash
  | some current ↦ if current ≟ b.previous_block_hash then ok hash else (do
    head ← get_item current s.block_by_hash
    ok (if ltb (get_total_work head) (get_total_work b) then hash else current))
]

module _ ⦃c : Crypto⦄ where
  unfoldable pub add_block_no_validation : CoinState → Block → Result CoinState
  add_block_no_validation s b = do
    before ← outs_before s b
    outs ← uto_apply_block before b
    hash ← block_hash b
    heights ← heights_with s hash b
    current ← current_with s hash b
    let blocks = insert hash b s.block_by_hash
    ok (record {
      block_by_hash = blocks;
      unspent_transaction_outs_by_hash = insert hash outs s.unspent_transaction_outs_by_hash;
      block_by_height_by_hash = heights;
      heads = heads_with s hash b;
      current_chain_hash = some current;
      public_key_balances_by_hash = new_public_key_balances blocks;
    })

-- `head`; with no current chain the lookup of None is a KeyError.
unfoldable pub head : CoinState → Result Block
head s = elim s.current_chain_hash [ none ↦ err key_error | some h ↦ get_item h s.block_by_hash ]

-- `assert self.current_chain_hash`: an empty hash fails too.
unfoldable pub assert_current : CoinState → Result Bytes
assert_current s = elim s.current_chain_hash [
  | none ↦ err assertion_error
  | some h ↦ elim h [ [] ↦ err assertion_error | x ∷ xs ↦ ok (x ∷ xs) ]
]

-- `by_height_at_head`, and `at_head.block_by_height`
unfoldable pub by_height_at_head : CoinState → Result (Map ℕ Block)
by_height_at_head s = do h ← assert_current s; get_item h s.block_by_height_by_hash

-- `at_head.unspent_transaction_outs`
unfoldable pub outs_at_head : CoinState → Result UnspentOuts
outs_at_head s = do h ← assert_current s; get_item h s.unspent_transaction_outs_by_hash

-- `at_head.public_key_balances`, with the cache that the lookup leaves.
unfoldable pub balances_at_head : ⦃c : Crypto⦄ → CoinState → Result Balances × CoinState
balances_at_head s = elim (assert_current s) [
  | err e ↦ (err e, s)
  | ok h ↦
      (let r = get_balances s.public_key_balances_by_hash h in
        (r.0, record s { public_key_balances_by_hash = r.1 }))
]
