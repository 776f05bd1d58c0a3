-- ===== src/Network/Inventory.antt =====
-- The exchange of inventories of `ConnectedRemotePeer` in skepticoin/networking/remote_peer.py: the items
-- that are sent and those that are kept.
pub mod Exchange
pub mod Bounds
pub mod Synced
use skepticoin.Crypto
use skepticoin.Crypto.{Crypto}
use skepticoin.CoinState.{CoinState, by_height_at_head, head}
use skepticoin.Datatypes.{Block}
use skepticoin.Datatypes.Hash.{block_hash}
use skepticoin.Network.State.{ConnectedPeer, InventoryMessageState, Node}
use skepticoin.Network.Messages.{
  GetBlocksMessage, GetDataMessage, InventoryItem, Message, MessageHeader, data_block, get_data,
  inventory, new_get_blocks, new_inventory_item,
}
use skepticoin.Network.Pool.{count_up}
use skepticoin.Network.Params.{get_blocks_inventory_size}
use skepticoin.Network.Manager.{min}
use skepticoin.Prelude.{
  Bytes, List, Option, none, some, [], false, true, if◌then◌else◌, length, ℕ, Bool, ltb, map, not,
  ◌&&◌, ◌++◌, ◌+◌, ◌-◌, ◌==◌, ◌||◌, ◌∷◌,
}
use skepticoin.Prelude.Eq.{list_eq, nat_eq, ◌≟◌}
use skepticoin.Prelude.Map.{Map, contains, get_item}
use skepticoin.Prelude.Result
use skepticoin.Prelude.Result.{Error, Result, err, ok, index_error, ◌>>=◌}
use skepticoin.Prelude.{suc, zero}
use skepticoin.Prelude.Map.{lookup}
use skepticoin.Wallet.Spend.{start}

-- Where an inventory starts: at a height, or nowhere since the peer knows all.
pub data Start : Type 0 where
  no_new_info : Start
  start_at : ℕ → Start

-- What follows a known hash: the search ends if nothing is at the height, or if what is there is on
-- top of the hash.
unfoldable pub start_after : Bytes → ℕ → Option Block → Result Start → Result Start
start_after hash start_height none otherwise = ok no_new_info
start_after hash start_height (some b) otherwise =
    if b.previous_block_hash ≟ hash then ok (start_at start_height) else otherwise

unfoldable pub start_of : Result (Map ℕ Block) → Bytes → ℕ → Result Start → Result Start
start_of (err e) hash start_height otherwise = err e
start_of (ok heights) hash start_height otherwise =
    start_after hash start_height (lookup start_height heights) otherwise

unfoldable pub start_from : CoinState → Bytes → Option Block → Result Start → Result Start
start_from s hash none otherwise = otherwise
start_from s hash (some b) otherwise = start_of (by_height_at_head s) hash (b.height + 1) otherwise

-- The loop over `potential_start_hashes`.
unfoldable pub find_start : CoinState → List Bytes → Result Start
find_start s [] = ok (start_at 1)
find_start s (hash ∷ hashes) =
    let otherwise = find_start s hashes in start_from s hash (lookup hash s.block_by_hash) otherwise

module _ ⦃c : Crypto⦄ where
  unfoldable pub item_at : CoinState → ℕ → Result InventoryItem
  item_at s height = do
    heights ← by_height_at_head s
    b ← get_item height heights
    hash ← block_hash b
    ok (new_inventory_item data_block hash)

  unfoldable pub items_at : CoinState → List ℕ → Result (List InventoryItem)
  items_at s [] = ok []
  items_at s (height ∷ heights) = do
    item ← item_at s height
    items ← items_at s heights
    ok (item ∷ items)

  unfoldable pub items_from : CoinState → Start → Result (List InventoryItem)
  items_from s no_new_info = ok []
  items_from s (start_at start_height) = do
    h ← head s
    items_at s (
        count_up (min (start_height + get_blocks_inventory_size) (h.height + 1) - start_height)
          start_height)

  -- The items that answer a GetBlocksMessage.
  unfoldable pub items_for : CoinState → GetBlocksMessage → Result (List InventoryItem)
  items_for s message = do start ← find_start s message.potential_start_hashes; items_from s start

-- `del message.items[j]` of the first item with the hash
unfoldable pub remove_item : Bytes → List InventoryItem → List InventoryItem
remove_item hash [] = []
remove_item hash (item ∷ items) = if item.hash ≟ hash then items else item ∷ remove_item hash items

-- In each message the first item with the hash is removed, up to the message that has none left.
unfoldable pub without_hash : Bytes → List InventoryMessageState → List InventoryMessageState
without_hash hash [] = []
without_hash hash (m ∷ ms) =
    let items = remove_item hash m.items in
    let rest = without_hash hash ms in
    if length items == 0 then ms else record m { items = items } ∷ rest

-- The hash of the last item.
unfoldable pub last_hash : List InventoryItem → Result Bytes
last_hash [] = err index_error
last_hash (item ∷ []) = ok item.hash
last_hash (item ∷ next ∷ items) = last_hash (next ∷ items)

-- `xs[k] = f(xs[k])`
unfoldable pub update_at : {A : Type 0} → ℕ → (A → A) → List A → List A
update_at k f [] = []
update_at zero f (x ∷ xs) = f x ∷ xs
update_at (suc k) f (x ∷ xs) = x ∷ update_at k f xs

abbrev pub used : InventoryMessageState → InventoryMessageState
used m = record m { actually_used = true }

abbrev pub requested_at : ℕ → InventoryMessageState → InventoryMessageState
requested_at j m = record m {
  items = update_at j (λ item. record item { block_requested = true }) m.items;
}
