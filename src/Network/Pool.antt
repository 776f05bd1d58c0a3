-- ===== src/Network/Pool.antt =====
-- `ChainManager` of skepticoin/networking/manager.py: the coin state of the node and the transactions
-- that wait for a block. A method runs under the manager's lock and returns the manager as it leaves
-- it, also when it raises.
pub mod Valid
use skepticoin.Crypto
use skepticoin.Crypto.{Crypto}
use skepticoin.Datatypes.Wire.{transaction_wire}
use skepticoin.CoinState.{CoinState, head, assert_current, by_height_at_head}
use skepticoin.Datatypes.{Block, Transaction}
use skepticoin.Datatypes.Hash.{block_hash}
use skepticoin.Prelude.{Bytes, List, Option, ℕ, Bool}
use skepticoin.Prelude.Result.{Result, err, ok, Error, validate_transaction, ◌>>=◌, ◌>>◌}
use skepticoin.Consensus.Validate.{
  Check, validate_no_duplicate_output_references_in_transactions,
  validate_non_coinbase_transaction_by_itself, validate_non_coinbase_transaction_in_coinstate,
}
use skepticoin.Network.Messages.{Message, new_get_blocks}
use skepticoin.Network.Params.{switch_to_active_mode_timeout}
use skepticoin.Prelude.{
  [], false, if◌then◌else◌, leb, ltb, some, suc, true, zero, ◌%◌, ◌*◌, ◌++◌, ◌+◌, ◌-◌, ◌==◌, ◌||◌,
  ◌∷◌,
}
use skepticoin.Prelude.Eq.{list_eq, nat_eq}
use skepticoin.Prelude.Map.{Map, get_item}

pub record ChainManager : Type 0 where
  pub coinstate : CoinState
  pub started_at : ℕ
  pub transaction_pool : List Transaction
  pub last_known_valid_coinstate : Option CoinState

-- `ChainManager.__init__`, and the coin state that `set_coinstate` gives it before it is used.
abbrev pub new_chain_manager : CoinState → ℕ → ChainManager
new_chain_manager s current_time = record {
  coinstate = s;
  started_at = current_time;
  transaction_pool = [];
  last_known_valid_coinstate = some s;
}

-- `head().timestamp + SWITCH_TO_ACTIVE_MODE_TIMEOUT` is read only if the coin state has a head.
unfoldable pub should_actively_fetch_blocks : ChainManager → ℕ → Result Bool
should_actively_fetch_blocks m current_time = do
  h ← head m.coinstate
  ok (
      ltb (h.timestamp + switch_to_active_mode_timeout) current_time
      || leb current_time (m.started_at + 60)
      || current_time % 60 == 0)

-- `list(range(10)) + [pow(x, 2) for x in range(4, 64)]`
unfoldable pub squares : ℕ → ℕ → List ℕ
squares zero x = []
squares (suc n) x = (x * x) ∷ squares n (x + 1)

unfoldable pub count_up : ℕ → ℕ → List ℕ
count_up zero x = []
count_up (suc n) x = x ∷ count_up n (x + 1)

abbrev pub oldness : List ℕ
oldness = count_up 10 0 ++ squares 60 4

-- `[x for x in [block_height - o for o in oldness] if x >= 0]`
unfoldable pub heights_back : ℕ → List ℕ → List ℕ
heights_back block_height [] = []
heights_back block_height (o ∷ os) =
    let rest = heights_back block_height os in
    if leb o block_height then (block_height - o) ∷ rest else rest

unfoldable pub get_recent_block_heights : ℕ → List ℕ
get_recent_block_heights block_height = heights_back block_height oldness

module _ ⦃c : Crypto⦄ where
  unfoldable pub hashes_at : Map ℕ Block → List ℕ → Result (List Bytes)
  hashes_at heights [] = ok []
  hashes_at heights (h ∷ hs) = do
    b ← get_item h heights
    hash ← block_hash b
    rest ← hashes_at heights hs
    ok (hash ∷ rest)

  unfoldable pub get_get_blocks_message : ChainManager → Result Message
  get_get_blocks_message m = do
    h ← head m.coinstate
    heights ← by_height_at_head m.coinstate
    hashes ← hashes_at heights (get_recent_block_heights h.height)
    ok (new_get_blocks hashes)

  -- The validation at the head of the coin state.
  unfoldable pub validate_at_head : CoinState → Transaction → Check
  validate_at_head s t = do
    current ← assert_current s
    validate_non_coinbase_transaction_in_coinstate t current s

  -- `is_valid`: only a ValidateTransactionError counts as invalid; others are raised.
  unfoldable pub caught : Check → Result Bool
  caught (ok u) = ok true
  caught (err validate_transaction) = ok false
  caught (err e) = err e

  unfoldable pub valid_transactions : CoinState → List Transaction → Result (List Transaction)
  valid_transactions s [] = ok []
  valid_transactions s (t ∷ ts) = do
    valid ← caught (validate_at_head s t)
    rest ← valid_transactions s ts
    ok (if valid then t ∷ rest else rest)

  unfoldable pub with_pool :
      ChainManager → CoinState → Bool → Result (List Transaction) → Check × ChainManager
  with_pool m s validated (err e) = (err e, record m { coinstate = s })
  with_pool m s validated (ok pool) = (
    ok tt,
    record {
      coinstate = s;
      started_at = m.started_at;
      transaction_pool = pool;
      last_known_valid_coinstate = if validated then some s else m.last_known_valid_coinstate;
    },
  )

  -- The coin state is set before the pool is cleaned up.
  unfoldable pub set_coinstate : ChainManager → CoinState → Bool → Check × ChainManager
  set_coinstate m s validated = with_pool m s validated (valid_transactions s m.transaction_pool)

  unfoldable pub validate_for_pool : ChainManager → Transaction → Check
  validate_for_pool m t = do
    validate_non_coinbase_transaction_by_itself t
    validate_at_head m.coinstate t
    validate_no_duplicate_output_references_in_transactions (m.transaction_pool ++ (t ∷ []))

  unfoldable pub pool_with : ChainManager → Transaction → Result Bool → Result Bool × ChainManager
  pool_with m t (ok true) =
      (ok true, record m { transaction_pool = m.transaction_pool ++ (t ∷ []) })
  pool_with m t (ok false) = (ok false, m)
  pool_with m t (err e) = (err e, m)

  -- Whether the transaction was added.
  unfoldable pub add_transaction_to_pool : ChainManager → Transaction → Result Bool × ChainManager
  add_transaction_to_pool m t = pool_with m t (caught (validate_for_pool m t))
