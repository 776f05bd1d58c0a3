-- ===== src/Mining.antt =====
-- `MinerWatcher` of skepticoin/mining.py: the messages of the miners, the blocks that they find, and
-- the node that is told of them. The counting of hashes and the balance are for the statistics, which
-- are printed; they are left out.
pub mod Found
use skepticoin.Crypto
use skepticoin.Crypto.{Crypto}
use skepticoin.CoinState
use skepticoin.CoinState.{CoinState}
use skepticoin.Consensus.{construct_block_pow_evidence_input, construct_pow_evidence_after_scrypt}
use skepticoin.Consensus.Validate.{add_block, bytes_lt}
use skepticoin.Datatypes.{Block, BlockSummary, PowEvidence, Transaction}
use skepticoin.Datatypes.Hash.{block_hash}
use skepticoin.Network.Blocks.{broadcast_block, set_node_coinstate}
use skepticoin.Network.Method
use skepticoin.Network.Os
use skepticoin.Network.Os.{Os}
use skepticoin.Network.State.{Node, flush_blocks, save_block}
use skepticoin.Prelude.{
  length, Bytes, Bool, List, Option, none, some, [], ◌∷◌, ◌++◌, ℕ, if◌then◌else◌, leb, not, ◌+◌,
}
use skepticoin.Prelude.Map.{Map, get_item, insert}
use skepticoin.Prelude.Result.{Error, Result, err, ok}
use skepticoin.Signing.{new_public_key}
use skepticoin.Wallet.Keys.{get_annotated_public_key}
use skepticoin.Wallet.Spend.{Wallet}
use Prim.Native.String.{String}
use skepticoin.Network.Method.{Method}
use skepticoin.Prelude.{true}
use skepticoin.Prelude.Eq.{list_eq, nat_eq}

-- What is mined on: the summary, the height, and the transactions.
pub record MiningArgs : Type 0 where
  pub summary : BlockSummary
  pub current_height : ℕ
  pub transactions : List Transaction

-- `sent` is what was put into the queues of the miners.
pub record MinerWatcher ⦃os : Os⦄ : Type 0 where
  pub wallet : Wallet
  pub coinstate : CoinState
  pub node : Node
  pub mining_args : Map ℕ MiningArgs
  pub public_key : Bytes
  pub sent : List (ℕ × BlockSummary × ℕ)

-- The messages of a miner.
pub data MinerMessage : Type 0 where
  request_scrypt_input : ℕ → MinerMessage
  scrypt_output : Bytes → MinerMessage
  unknown_message : MinerMessage

unfoldable pub max : ℕ → ℕ → ℕ
max m n = if leb m n then n else m

abbrev pub mined : MiningArgs → PowEvidence → Block
mined args evidence = record {
  header = record { summary = args.summary; pow_evidence = evidence };
  transactions = args.transactions;
  cached_hash = none;
}

module _ ⦃os : Os⦄ where
  abbrev pub Watching : Type 0 → Type 0
  Watching A = MinerWatcher → Result A × MinerWatcher

  abbrev pub watched :
      {A B : Type 0} → Result A × MinerWatcher → (A → Watching B) → Result B × MinerWatcher
  watched (err e, w) next = (err e, w)
  watched (ok a, w) next = next a w

  infixl 5 ◌>>=◌ ◌>>◌
  unfoldable pub ◌>>=◌ : {A B : Type 0} → Watching A → (A → Watching B) → Watching B
  ◌>>=◌ m next w = watched (m w) next

  abbrev pub ◌>>◌ : {A B : Type 0} → Watching A → Watching B → Watching B
  m >> next = m >>= λ _. next

  unfoldable pub reads : {A : Type 0} → (MinerWatcher → A) → Watching A
  reads f w = (ok (f w), w)

  unfoldable pub updates : (MinerWatcher → MinerWatcher) → Watching (Unit {0})
  updates f w = (ok tt, f w)

  unfoldable pub tries : {A : Type 0} → Result A → Watching A
  tries r w = (r, w)

  -- A call of the node, in the thread of the network.
  unfoldable pub on_node : {A : Type 0} → Method.Method A → Watching A
  on_node m w = let r = m w.node in (r.0, record w { node = r.1 })

module _ ⦃os : Os⦄ ⦃c : Crypto⦄ where
  unfoldable pub handle_request_scrypt_input_message : ℕ → ℕ → Watching (Unit {0})
  handle_request_scrypt_input_message miner_id nonce = do
    m ← reads (λ w. w.node.chain_manager)
    updates (λ w. record w { coinstate = m.coinstate })
    now ← on_node (Method.ask os.clock)
    h ← tries (CoinState.head m.coinstate)
    w ← reads (λ w. w)
    key ← tries (new_public_key w.public_key)
    input ← tries (
        construct_block_pow_evidence_input m.coinstate m.transaction_pool key
          (max now (h.timestamp + 1)) [] nonce)
    updates (λ w. record w {
      mining_args =
          insert miner_id
            (record { summary = input.0; current_height = input.1; transactions = input.2 })
            w.mining_args;
      sent = w.sent ++ ((miner_id, input.0, input.1) ∷ []);
    })

  unfoldable pub take_key : ℕ → Watching Bytes
  take_key k w =
      let r = get_annotated_public_key k "reserved for potentially mined block" w.wallet in
      (r.0, record w { wallet = r.1 })

  unfoldable pub new_mining_key : Watching (Unit {0})
  new_mining_key = do
    n ← reads (λ w. length w.wallet.keypairs)
    k ← on_node (Method.ask (λ k. os.choice k n))
    key ← take_key k
    updates (λ w. record w { public_key = key })

  -- A block with enough work.
  unfoldable pub found_block : Block → Watching (Unit {0})
  found_block b = do
    s ← reads (λ w. w.coinstate)
    on_node (set_node_coinstate s true)
    on_node (broadcast_block b)
    now ← on_node (Method.ask os.clock)
    s' ← tries (add_block s b now)
    updates (λ w. record w { coinstate = s' })
    on_node (Method.call_disk (save_block b))
    on_node (Method.call_disk flush_blocks)
    new_mining_key

  unfoldable pub handle_scrypt_output_message : ℕ → Bytes → Watching (Unit {0})
  handle_scrypt_output_message miner_id summary_hash = do
    w ← reads (λ w. w)
    args ← tries (get_item miner_id w.mining_args)
    evidence ← tries (
        construct_pow_evidence_after_scrypt summary_hash w.coinstate args.summary
          args.current_height args.transactions)
    let b = mined args evidence
    hash ← tries (block_hash b)
    if bytes_lt hash b.target then found_block b else updates (λ w. w)

  unfoldable pub handle_received_message : ℕ → MinerMessage → Watching (Unit {0})
  handle_received_message miner_id (request_scrypt_input nonce) =
      handle_request_scrypt_input_message miner_id nonce
  handle_received_message miner_id (scrypt_output summary_hash) =
      handle_scrypt_output_message miner_id summary_hash
  handle_received_message miner_id unknown_message = updates (λ w. w)
