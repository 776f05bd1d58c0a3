-- ===== src/Network/Inventory/Exchange.antt =====
-- The handlers of `ConnectedRemotePeer` in skepticoin/networking/remote_peer.py by which nodes tell
-- each other of blocks.
use skepticoin.Crypto.{Crypto}
use skepticoin.CoinState.{CoinState}
use skepticoin.Network.Os.{Os}
use skepticoin.Network.State.{InventoryMessageState}
use skepticoin.Network.Messages.{
  GetBlocksMessage, InventoryItem, MessageHeader, data_block, get_data, inventory, new_get_blocks,
}
use skepticoin.Network.Sending.{send_message}
use skepticoin.Network.Method.{
  Method, when, pure, raise, lift, gets, ask, get_peer, put_peer, ◌>>=◌, ◌>>◌,
}
use skepticoin.Network.Params.{get_blocks_inventory_size}
use skepticoin.Prelude.{
  Bytes, List, some, [], false, if◌then◌else◌, length, ℕ, ltb, not, ◌&&◌, ◌++◌, ◌+◌, ◌==◌, ◌∷◌,
}
use skepticoin.Prelude.Eq.{list_eq, nat_eq}
use skepticoin.Prelude.Map.{contains}
use skepticoin.Prelude.Result.{plain_exception}
use skepticoin.Network.Inventory.{items_for, last_hash, requested_at, update_at, used, without_hash}

module _ ⦃os : Os⦄ ⦃c : Crypto⦄ where
  unfoldable pub handle_get_blocks : ℕ → MessageHeader → GetBlocksMessage → Method (Unit {0})
  handle_get_blocks i header message = do
    n ← gets (λ n. n.chain_manager)
    items ← lift (items_for n.coinstate message)
    send_message i (inventory items) (some header)

  unfoldable pub update_message :
      ℕ → ℕ → (InventoryMessageState → InventoryMessageState) → Method (Unit {0})
  update_message i k f = do
    p ← get_peer i
    put_peer i (record p { inventory_messages = update_at k f p.inventory_messages })

  unfoldable pub request_item : ℕ → MessageHeader → ℕ → ℕ → InventoryItem → Method (Unit {0})
  request_item i header k j item = do
    update_message i k (requested_at j)
    send_message i (get_data (record { data_type = data_block; hash = item.hash })) (some header)

  -- The items of the k-th message from the j-th one.
  unfoldable pub request_items :
      ℕ → CoinState → MessageHeader → ℕ → ℕ → List InventoryItem → Method (Unit {0})
  request_items i s header k j [] = pure tt
  request_items i s header k j (item ∷ items) = do
    when (not item.block_requested && not (contains item.hash s.block_by_hash))
        (request_item i header k j item)
    request_items i s header k (j + 1) items

  unfoldable pub check_message : ℕ → CoinState → ℕ → InventoryMessageState → Method (Unit {0})
  check_message i s k m =
      when (not m.actually_used)
        (do update_message i k used; request_items i s m.header k 0 m.items)

  unfoldable pub check_messages : ℕ → CoinState → ℕ → List InventoryMessageState → Method (Unit {0})
  check_messages i s k [] = pure tt
  check_messages i s k (m ∷ ms) = do check_message i s k m; check_messages i s (k + 1) ms

  unfoldable pub check_inventory_messages : ℕ → Method (Unit {0})
  check_inventory_messages i = do
    m ← gets (λ n. n.chain_manager)
    p ← get_peer i
    check_messages i m.coinstate 0 p.inventory_messages

  unfoldable pub remove_from_inventory : ℕ → Bytes → Method (Unit {0})
  remove_from_inventory i hash = do
    p ← get_peer i
    put_peer i (record p { inventory_messages = without_hash hash p.inventory_messages })

  unfoldable pub note_empty_inventory : ℕ → Method (Unit {0})
  note_empty_inventory i = do
    now ← ask os.clock
    p ← get_peer i
    put_peer i (record p { last_empty_inventory_response_at = now; waiting_for_inventory = false })

  unfoldable pub append_inventory : ℕ → MessageHeader → List InventoryItem → Method (Unit {0})
  append_inventory i header items = do
    p ← get_peer i
    put_peer i (record p {
      inventory_messages =
          p.inventory_messages
          ++ (record { header = header; items = items; index = 0; actually_used = false } ∷ []);
    })
    check_inventory_messages i
    last ← lift (last_hash items)
    send_message i (new_get_blocks (last ∷ [])) (some header)

  unfoldable pub handle_inventory : ℕ → MessageHeader → List InventoryItem → Method (Unit {0})
  handle_inventory i header items =
      if ltb get_blocks_inventory_size (length items)
      then raise plain_exception
      else if length items == 0
      then note_empty_inventory i
      else append_inventory i header items
