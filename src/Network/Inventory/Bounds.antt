-- ===== src/Network/Inventory/Bounds.antt =====
-- How long the answer to a GetBlocksMessage of skepticoin/networking/remote_peer.py is.
use skepticoin.Crypto.{Crypto}
use skepticoin.CoinState
use skepticoin.CoinState.{CoinState, by_height_at_head}
use skepticoin.Network.Inventory.{Start, find_start, item_at, items_at, items_for, items_from}
use skepticoin.Network.Messages.{GetBlocksMessage, InventoryItem}
use skepticoin.Network.Manager.{min}
use skepticoin.Network.Params.{get_blocks_inventory_size}
use skepticoin.Network.Pool.{count_up}
use skepticoin.Prelude.{List, [], ◌∷◌, ◌≡◌, ◌≤◌, ◌+◌, ◌-◌, ℕ, arith, length, refl, ap, sym, ◌∙◌}
use skepticoin.Prelude.Result.{ok, ok-injective, >>=-eq_ok}
use skepticoin.Network.Inventory.{no_new_info, start_at}
use skepticoin.Prelude.{false, ltb, suc, zero}
use skepticoin.Wallet.Spend.{start}

length-count_up : (k x : ℕ) → length (count_up k x) ≡ k
unfolding count_up
length-count_up zero x = refl
length-count_up (suc k) x = ap (λ j. suc j) (length-count_up k (x + 1))

in_range : (start top : ℕ) → min (start + 500) top - start ≤ 500
unfolding min
in_range start top = ground arith

module _ ⦃c : Crypto⦄ where
  length-items_at :
      (s : CoinState) (heights : List ℕ) {items : List InventoryItem}
      → items_at s heights ≡ ok items
      → length items ≡ length heights
  unfolding items_at
  length-items_at s [] h = ap length (sym (ok-injective h))
  length-items_at s (x ∷ xs) h =
      (let (item, e1, h1) = >>=-eq_ok (item_at s x) _ h in
        let (items, e2, h2) = >>=-eq_ok (items_at s xs) _ h1 in
        ap length (sym (ok-injective h2)) ∙ ap (λ j. suc j) (length-items_at s xs e2))

  items_from-bound :
      (s : CoinState) (start : Start) {items : List InventoryItem}
      → items_from s start ≡ ok items
      → length items ≤ 500
  unfolding items_from
  items_from-bound s no_new_info h = rw (sym (ok-injective h)) (omega arith)
  items_from-bound s (start_at x) h =
      (let (b, e1, h1) = >>=-eq_ok (CoinState.head s) _ h in
        rw (length-items_at s _ h1 ∙ length-count_up _ x) (in_range x (b.height + 1)))

  -- An answer to a GetBlocksMessage has at most GET_BLOCKS_INVENTORY_SIZE items, so that the receiver
  -- does not refuse it as too big.
  pub items_for-bound :
      (s : CoinState) (message : GetBlocksMessage) (items : List InventoryItem)
      → items_for s message ≡ ok items
      → ltb get_blocks_inventory_size (length items) ≡ false
  unfolding items_for
  items_for-bound s message items h =
      (let (start, e, h1) = >>=-eq_ok (find_start s message.potential_start_hashes) _ h in
        let small = items_from-bound s start h1 in ground arith)
