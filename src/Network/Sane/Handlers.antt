-- ===== src/Network/Sane/Handlers.antt =====
-- The handlers of `ConnectedRemotePeer` in skepticoin/networking/remote_peer.py keep the peers apart,
-- and what the methods of the chain manager keep.
use skepticoin.Crypto.{Crypto}
use skepticoin.CoinState.{CoinState}
use skepticoin.Network.Os.{Os}
use skepticoin.Network.Pool.{ChainManager, add_transaction_to_pool, set_coinstate}
use skepticoin.Network.Sane.{
  IsGood, ask-IsGood, call_disk-IsGood, get_peer-IsGood, put_peer-IsGood, send_message-IsGood,
}
use skepticoin.Network.Keeps.{Keeps}
use skepticoin.Prelude.{Bool, Bytes, List, Option, none, some, [], ◌∷◌, true, false, ℕ}
use skepticoin.Prelude.Result.{Result, err, ok}
use skepticoin.Datatypes.{Block, Transaction}
use skepticoin.Network.Blocks.{
  accept_block, after_adding, after_validation, broadcast_transaction, go_back,
  handle_block_received, handle_body, handle_data, handle_get_data, handle_transaction_received,
  if_valid, receive_new_block, set_node_coinstate,
}
use skepticoin.Network.Inventory.Exchange.{
  append_inventory, check_inventory_messages, check_message, check_messages, handle_get_blocks,
  handle_inventory, note_empty_inventory, remove_from_inventory, request_item, request_items,
  update_message,
}
use skepticoin.Network.Keeps.{
  Keeps-bind, Keeps-gets, Keeps-if, Keeps-lift, Keeps-pure, Keeps-raise, Keeps-when,
}
use skepticoin.Network.Messages.{
  Body, DataMessage, GetBlocksMessage, GetDataMessage, InventoryItem, MessageHeader, block_body,
  header_body, transaction_body,
}
use skepticoin.Network.Method.{on_chain_manager}
use skepticoin.Network.State.{InventoryMessageState}
use skepticoin.Prelude.{◌+◌}
use skepticoin.Network.Blocks.{answer_data}
use skepticoin.Network.Sane.{IsSane}
use skepticoin.Network.Sane.Broadcast.{announce-IsGood, broadcast_message-IsGood}

module _ ⦃os : Os⦄ ⦃c : Crypto⦄ (Q : ChainManager → Type 0)
    (by_set : (m : ChainManager) (s : CoinState) (v : Bool) → Q m → Q (set_coinstate m s v).1)
    (by_add : (m : ChainManager) (t : Transaction) → Q m → Q (add_transaction_to_pool m t).1) where
  pub handle_get_blocks-IsGood :
      (i : ℕ) (h : MessageHeader) (m : GetBlocksMessage)
      → Keeps (IsGood IsSane Q) (handle_get_blocks i h m)
  unfolding handle_get_blocks
  handle_get_blocks-IsGood i h m = search (Keeps-bind, Keeps-gets, Keeps-lift, send_message-IsGood)

  update_message-IsGood :
      (i k : ℕ) (f : InventoryMessageState → InventoryMessageState)
      → Keeps (IsGood IsSane Q) (update_message i k f)
  unfolding update_message
  update_message-IsGood i k f = search (Keeps-bind, get_peer-IsGood, put_peer-IsGood)

  request_items-IsGood :
      (i : ℕ) (s : CoinState) (h : MessageHeader) (k j : ℕ) (items : List InventoryItem)
      → Keeps (IsGood IsSane Q) (request_items i s h k j items)
  unfolding request_items request_item
  request_items-IsGood i s h k j [] = Keeps-pure (IsGood IsSane Q) tt
  request_items-IsGood i s h k j (item ∷ items) =
      Keeps-bind (IsGood IsSane Q)
        (Keeps-when (IsGood IsSane Q) _
          (search (Keeps-bind, update_message-IsGood, send_message-IsGood)))
        (λ u. request_items-IsGood i s h k (j + 1) items)

  check_message-IsGood :
      (i : ℕ) (s : CoinState) (k : ℕ) (m : InventoryMessageState)
      → Keeps (IsGood IsSane Q) (check_message i s k m)
  unfolding check_message
  check_message-IsGood i s k m =
      search (Keeps-bind, Keeps-when, update_message-IsGood, request_items-IsGood)

  check_messages-IsGood :
      (i : ℕ) (s : CoinState) (k : ℕ) (ms : List InventoryMessageState)
      → Keeps (IsGood IsSane Q) (check_messages i s k ms)
  unfolding check_messages
  check_messages-IsGood i s k [] = Keeps-pure (IsGood IsSane Q) tt
  check_messages-IsGood i s k (m ∷ ms) =
      Keeps-bind (IsGood IsSane Q) (check_message-IsGood i s k m)
        (λ u. check_messages-IsGood i s (k + 1) ms)

  append_inventory-IsGood :
      (i : ℕ) (h : MessageHeader) (items : List InventoryItem)
      → Keeps (IsGood IsSane Q) (append_inventory i h items)
  unfolding append_inventory check_inventory_messages
  append_inventory-IsGood i h items =
      search
        (
          Keeps-bind, Keeps-gets, Keeps-lift, get_peer-IsGood, put_peer-IsGood,
          check_messages-IsGood, send_message-IsGood,
        )
        depth 9

  note_empty_inventory-IsGood : (i : ℕ) → Keeps (IsGood IsSane Q) (note_empty_inventory i)
  unfolding note_empty_inventory
  note_empty_inventory-IsGood i = search (Keeps-bind, ask-IsGood, get_peer-IsGood, put_peer-IsGood)

  pub handle_inventory-IsGood :
      (i : ℕ) (h : MessageHeader) (items : List InventoryItem)
      → Keeps (IsGood IsSane Q) (handle_inventory i h items)
  unfolding handle_inventory
  handle_inventory-IsGood i h items =
      search (Keeps-if, Keeps-raise, note_empty_inventory-IsGood, append_inventory-IsGood)

  answer_data-IsGood :
      (i : ℕ) (h : MessageHeader) (o : Option Block) → Keeps (IsGood IsSane Q) (answer_data i h o)
  unfolding answer_data
  answer_data-IsGood i h none = Keeps-pure (IsGood IsSane Q) tt
  answer_data-IsGood i h (some b) = send_message-IsGood IsSane Q i _ _

  pub handle_get_data-IsGood :
      (i : ℕ) (h : MessageHeader) (m : GetDataMessage)
      → Keeps (IsGood IsSane Q) (handle_get_data i h m)
  unfolding handle_get_data
  handle_get_data-IsGood i h m =
      search (Keeps-bind, Keeps-if, Keeps-raise, Keeps-gets, answer_data-IsGood)

  set_node_coinstate-IsGood :
      (s : CoinState) (v : Bool) → Keeps (IsGood IsSane Q) (set_node_coinstate s v)
  unfolding set_node_coinstate on_chain_manager
  set_node_coinstate-IsGood s v = record {
    kept = λ n g. record { sane = g.sane; chain = by_set n.chain_manager s v g.chain };
  }

  go_back-IsGood : (o : Option CoinState) → Keeps (IsGood IsSane Q) (go_back o)
  unfolding go_back
  go_back-IsGood none = call_disk-IsGood IsSane Q _
  go_back-IsGood (some s) = search (Keeps-bind, set_node_coinstate-IsGood, call_disk-IsGood)

  after_validation-IsGood :
      (h : MessageHeader) (b : Block) (s : CoinState) (r : Result (Unit {0}))
      → Keeps (IsGood IsSane Q) (after_validation h b s r)
  unfolding after_validation
  after_validation-IsGood h b s (err e) = search (Keeps-bind, Keeps-gets, go_back-IsGood)
  after_validation-IsGood h b s (ok u) =
      search (Keeps-bind, set_node_coinstate-IsGood, call_disk-IsGood, announce-IsGood)

  accept_block-IsGood :
      (h : MessageHeader) (b : Block) (s : CoinState) → Keeps (IsGood IsSane Q) (accept_block h b s)
  unfolding accept_block
  accept_block-IsGood h b s = search (
    Keeps-bind, Keeps-if, Keeps-lift, call_disk-IsGood, after_validation-IsGood,
    set_node_coinstate-IsGood, announce-IsGood,
  )

  if_valid-IsGood :
      (h : MessageHeader) (b : Block) (s : CoinState) (r : Result (Unit {0}))
      → Keeps (IsGood IsSane Q) (if_valid h b s r)
  unfolding if_valid
  if_valid-IsGood h b s (err e) = search (Keeps-bind, Keeps-lift, Keeps-pure)
  if_valid-IsGood h b s (ok u) = accept_block-IsGood h b s

  handle_block_received-IsGood :
      (i : ℕ) (h : MessageHeader) (b : Block)
      → Keeps (IsGood IsSane Q) (handle_block_received i h b)
  unfolding handle_block_received receive_new_block remove_from_inventory
  handle_block_received-IsGood i h b =
      search
        (
          Keeps-bind, Keeps-gets, Keeps-lift, Keeps-when, Keeps-if, Keeps-pure, get_peer-IsGood,
          put_peer-IsGood, ask-IsGood, if_valid-IsGood,
        )
        depth 9

  add_to_pool-IsGood :
      (t : Transaction)
      → Keeps (IsGood IsSane Q) (on_chain_manager (λ m. add_transaction_to_pool m t))
  unfolding on_chain_manager
  add_to_pool-IsGood t = record {
    kept = λ n g. record { sane = g.sane; chain = by_add n.chain_manager t g.chain };
  }

  after_adding-IsGood : (t : Transaction) (b : Bool) → Keeps (IsGood IsSane Q) (after_adding t b)
  unfolding after_adding broadcast_transaction
  after_adding-IsGood t true = broadcast_message-IsGood IsSane Q _
  after_adding-IsGood t false = call_disk-IsGood IsSane Q _

  handle_transaction_received-IsGood :
      (t : Transaction) → Keeps (IsGood IsSane Q) (handle_transaction_received t)
  unfolding handle_transaction_received
  handle_transaction_received-IsGood t =
      search (Keeps-bind, Keeps-gets, Keeps-when, add_to_pool-IsGood, after_adding-IsGood)

  handle_body-IsGood :
      (i : ℕ) (h : MessageHeader) (d : Bytes) (b : Body)
      → Keeps (IsGood IsSane Q) (handle_body i h d b)
  unfolding handle_body
  handle_body-IsGood i h d (block_body b) =
      search (Keeps-if, Keeps-raise, handle_block_received-IsGood)
  handle_body-IsGood i h d (transaction_body t) =
      search (Keeps-if, Keeps-raise, handle_transaction_received-IsGood)
  handle_body-IsGood i h d (header_body b) = Keeps-raise (IsGood IsSane Q) _

  pub handle_data-IsGood :
      (i : ℕ) (h : MessageHeader) (m : DataMessage) → Keeps (IsGood IsSane Q) (handle_data i h m)
  unfolding handle_data
  handle_data-IsGood i h m = handle_body-IsGood i h m.data_type m.body
