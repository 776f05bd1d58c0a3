-- ===== src/Network/Blocks.antt =====
-- Blocks and transactions that arrive: `handle_data_message_received` and what it calls of
-- `ConnectedRemotePeer` in skepticoin/networking/remote_peer.py, and the broadcasts of
-- skepticoin/networking/manager.py.
pub mod Received
use skepticoin.Crypto
use skepticoin.Crypto.{Crypto}
use skepticoin.CoinState
use skepticoin.CoinState.{CoinState, add_block_no_validation}
use skepticoin.Consensus.Validate.{validate_block_by_itself, validate_block_in_coinstate}
use skepticoin.Datatypes.{Block, Transaction, block_eq, transaction_eq}
use skepticoin.Datatypes.Hash.{block_hash}
use skepticoin.Network.Os
use skepticoin.Network.Os.{Os}
use skepticoin.Network.State.{
  ConnectedPeer, Node, flush_blocks, clear_write_buffer, save_block, save_transaction_for_debugging,
}
use skepticoin.Network.Messages.{
  Body, DataMessage, GetDataMessage, Message, MessageHeader, block_body, data_block, data_message,
  data_transaction, header_body, transaction_body,
}
use skepticoin.Network.Sending.{send_message}
use skepticoin.Network.Inventory.Exchange.{remove_from_inventory}
use skepticoin.Network.Manager.{get_active_peers}
use skepticoin.Network.Method.{
  Method, when, pure, raise, lift, gets, change, ask, call_disk, get_peer, put_peer,
  on_chain_manager, ◌>>=◌, ◌>>◌,
}
use skepticoin.Network.Pool.{ChainManager, add_transaction_to_pool, set_coinstate}
use skepticoin.Network.Params.{ibd_validation_skip}
use skepticoin.Prelude.{
  Bytes, List, Option, none, some, [], false, true, if◌then◌else◌, ℕ, Bool, not, ◌%◌, ◌&&◌, ◌==◌,
  ◌||◌, ◌∷◌,
}
use skepticoin.Prelude.Eq.{list_eq, nat_eq, ◌≟◌}
use skepticoin.Prelude.Map.{contains, lookup}
use skepticoin.Prelude.Result.{
  Error, Result, err, ok, attribute_error, key_error, not_implemented, value_error,
}

-- What `broadcast_message` catches. An OSError, which it catches too, is none of the errors here.
unfoldable pub caught_broadcast : Result (Unit {0}) → Result (Unit {0})
caught_broadcast (err value_error) = ok tt
caught_broadcast (err key_error) = ok tt
caught_broadcast r = r

unfoldable pub mem_pool : Transaction → List Transaction → Bool
mem_pool t [] = false
mem_pool t (s ∷ ts) = transaction_eq s t || mem_pool t ts

module _ ⦃os : Os⦄ ⦃c : Crypto⦄ where
  unfoldable pub send_or_go_on : ℕ → Message → Method (Unit {0})
  send_or_go_on i message n = let r = send_message i message none n in (caught_broadcast r.0, r.1)

  unfoldable pub send_to_all : Message → List ℕ → Method (Unit {0})
  send_to_all message [] = pure tt
  send_to_all message (i ∷ is) = do send_or_go_on i message; send_to_all message is

  unfoldable pub broadcast_message : DataMessage → Method (Unit {0})
  broadcast_message message = do
    active ← gets get_active_peers
    send_to_all (data_message message) active

  -- The hash is computed for the log.
  unfoldable pub broadcast_block : Block → Method (Unit {0})
  broadcast_block b = do
    hash ← lift (block_hash b)
    broadcast_message (record { data_type = data_block; body = block_body b })

  unfoldable pub broadcast_transaction : Transaction → Method (Unit {0})
  broadcast_transaction t =
      broadcast_message (record { data_type = data_transaction; body = transaction_body t })

  -- An unknown hash is ignored.
  unfoldable pub answer_data : ℕ → MessageHeader → Option Block → Method (Unit {0})
  answer_data i header none = pure tt
  answer_data i header (some b) =
      send_message i (data_message (record { data_type = data_block; body = block_body b }))
        (some header)

  unfoldable pub handle_get_data : ℕ → MessageHeader → GetDataMessage → Method (Unit {0})
  handle_get_data i header message =
      if not (message.data_type ≟ data_block) then raise not_implemented else (do
        s ← gets (λ n. n.chain_manager.coinstate)
        answer_data i header (lookup message.hash s.block_by_hash))

  unfoldable pub set_node_coinstate : CoinState → Bool → Method (Unit {0})
  set_node_coinstate s validated = on_chain_manager (λ m. set_coinstate m s validated)

  -- A block that does not fit its chain: back to the last state that is known to be valid.
  unfoldable pub go_back : Option CoinState → Method (Unit {0})
  go_back none = call_disk clear_write_buffer
  go_back (some s) = do set_node_coinstate s true; call_disk clear_write_buffer

  -- A block that is the new head is passed on, unless it was asked for.
  unfoldable pub announce : MessageHeader → Block → CoinState → Method (Unit {0})
  announce header b changed = do
    h ← lift (CoinState.head changed)
    when (block_eq b h && header.in_response_to == 0) (broadcast_block b)

  unfoldable pub after_validation :
      MessageHeader → Block → CoinState → Result (Unit {0}) → Method (Unit {0})
  after_validation header b changed (err e) = do
    m ← gets (λ n. n.chain_manager)
    go_back m.last_known_valid_coinstate
  after_validation header b changed (ok u) = do
    set_node_coinstate changed true
    call_disk flush_blocks
    announce header b changed

  unfoldable pub must_validate : MessageHeader → Block → Bool
  must_validate header b = header.in_response_to == 0 || b.height % ibd_validation_skip == 0

  -- The block, which is valid by itself and has its parent in the prior state.
  unfoldable pub accept_block : MessageHeader → Block → CoinState → Method (Unit {0})
  accept_block header b prior = do
    call_disk (save_block b)
    changed ← lift (add_block_no_validation prior b)
    if must_validate header b
        then after_validation header b changed (validate_block_in_coinstate b prior)
        else (do set_node_coinstate changed false; announce header b changed)

  unfoldable pub if_valid :
      MessageHeader → Block → CoinState → Result (Unit {0}) → Method (Unit {0})
  if_valid header b prior (err e) = do h ← lift (CoinState.head prior); pure tt
  if_valid header b prior (ok u) = accept_block header b prior

  unfoldable pub receive_new_block : MessageHeader → Block → CoinState → Method (Unit {0})
  receive_new_block header b prior =
      if contains b.previous_block_hash prior.block_by_hash
      then (do now ← ask os.clock; if_valid header b prior (validate_block_by_itself b now))
      else (do h ← lift (CoinState.head prior); pure tt)

  unfoldable pub handle_block_received : ℕ → MessageHeader → Block → Method (Unit {0})
  handle_block_received i header b = do
    prior ← gets (λ n. n.chain_manager.coinstate)
    hash ← lift (block_hash b)
    remove_from_inventory i hash
    when (not (contains hash prior.block_by_hash)) (receive_new_block header b prior)

  unfoldable pub after_adding : Transaction → Bool → Method (Unit {0})
  after_adding t true = broadcast_transaction t
  after_adding t false = call_disk (save_transaction_for_debugging t)

  unfoldable pub handle_transaction_received : Transaction → Method (Unit {0})
  handle_transaction_received t = do
    m ← gets (λ n. n.chain_manager)
    when (not (mem_pool t m.transaction_pool))
        (do added ← on_chain_manager (λ m. add_transaction_to_pool m t); after_adding t added)

  -- A body of another class than its type says, which no bytes give, has not the methods.
  unfoldable pub handle_body : ℕ → MessageHeader → Bytes → Body → Method (Unit {0})
  handle_body i header data_type (block_body b) =
      if data_type ≟ data_block then handle_block_received i header b else raise attribute_error
  handle_body i header data_type (transaction_body t) =
      if data_type ≟ data_transaction then handle_transaction_received t else raise attribute_error
  handle_body i header data_type (header_body h) = raise not_implemented

  unfoldable pub handle_data : ℕ → MessageHeader → DataMessage → Method (Unit {0})
  handle_data i header message = handle_body i header message.data_type message.body
