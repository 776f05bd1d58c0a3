-- ===== src/Balances/Chain.antt =====
-- `PublicKeyBalances` of skepticoin/balances.py: the balances at a block, computed from the chain
-- that ends there and kept in a cache.
use skepticoin.Signing.{public_key_eq}
use skepticoin.Datatypes.{output_reference_eq}
use skepticoin.Balances.{Balances, UnspentOuts, pkb_apply_block, uto_apply_block}
use skepticoin.Crypto.{Crypto}
use skepticoin.Datatypes.{Block, thin_air_hash}
use skepticoin.Prelude.{
  Bytes, List, Option, [], if◌then◌else◌, length, none, some, suc, zero, ℕ, ◌∷◌,
}
use skepticoin.Prelude.Eq.{list_eq, nat_eq, ◌≟◌}
use skepticoin.Prelude.Map.{Map, get_item, insert, lookup}
use skepticoin.Prelude.Result.{Result, err, ok, recursion, ◌>>=◌}

-- `class PublicKeyBalances`
pub record PublicKeyBalances : Type 0 where
  pub block_by_hash : Map Bytes Block
  pub cache : Map Bytes Balances

-- `PublicKeyBalances.__init__`
unfoldable pub new_public_key_balances : Map Bytes Block → PublicKeyBalances
new_public_key_balances blocks = record { block_by_hash = blocks; cache = [] }

-- The `while` loop of `chain_at_hash`; the list is built with the oldest block first.
unfoldable pub chain_from : ℕ → Map Bytes Block → Block → List Block → Result (List Block)
chain_from zero blocks b newer = err recursion
chain_from (suc fuel) blocks b newer =
    let rest = (do
      p ← get_item b.previous_block_hash blocks
      chain_from fuel blocks p (b ∷ newer)) in
    if b.previous_block_hash ≟ thin_air_hash then ok (b ∷ newer) else rest

-- A chain has at most as many blocks as there are.
unfoldable pub chain_at_hash : Map Bytes Block → Bytes → Result (List Block)
chain_at_hash blocks h = do b ← get_item h blocks; chain_from (length blocks) blocks b []

module _ ⦃c : Crypto⦄ where
  -- The loop over the chain, on the unspent outputs and the balances.
  unfoldable pub balances_of_chain : UnspentOuts → Balances → List Block → Result Balances
  balances_of_chain uto pkb [] = ok pkb
  balances_of_chain uto pkb (b ∷ bs) = do
    pkb' ← pkb_apply_block uto pkb b
    uto' ← uto_apply_block uto b
    balances_of_chain uto' pkb' bs

  unfoldable pub public_key_balances_by_hash : Map Bytes Block → Option Bytes → Result Balances
  public_key_balances_by_hash blocks none = ok []
  public_key_balances_by_hash blocks (some head) = do
    chain ← chain_at_hash blocks head
    balances_of_chain [] [] chain

  -- `__getitem__`: what is computed is kept; an exception keeps nothing.
  unfoldable pub get_balances : PublicKeyBalances → Bytes → Result Balances × PublicKeyBalances
  get_balances p key = elim (lookup key p.cache) [
    | some b ↦ (ok b, p)
    | none ↦ elim (public_key_balances_by_hash p.block_by_hash (some key)) [
      | ok b ↦ (ok b, record p { cache = insert key b p.cache })
      | err e ↦ (err e, p)
    ]
  ]
