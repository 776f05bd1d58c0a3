-- ===== src/Network/Inventory/Synced.antt =====
-- What a node with the same chain answers to `get_get_blocks_message` of
-- skepticoin/networking/manager.py.
use skepticoin.Crypto.{Crypto}
use skepticoin.CoinState
use skepticoin.CoinState.{CoinState, by_height_at_head}
use skepticoin.Datatypes.{Block}
use skepticoin.Datatypes.Hash.{block_hash}
use skepticoin.Network.Inventory.{find_start, items_for, items_from, start_after, start_of}
use skepticoin.Network.Messages.{GetBlocksMessage, get_blocks, new_get_blocks}
use skepticoin.Network.Pool.{
  ChainManager, get_get_blocks_message, get_recent_block_heights, hashes_at, heights_back,
}
use skepticoin.Prelude.{Bytes, List, none, some, [], ◌∷◌, ◌≡◌, ◌+◌, ℕ, arith, refl, sym, ap, ◌∙◌}
use skepticoin.Prelude.Map.{Map, get_item, lookup}
use skepticoin.Prelude.Result.{ok, ok-injective, >>=-eq_ok}
use skepticoin.Network.Inventory.{no_new_info}
use skepticoin.Network.Pool.{count_up}
use skepticoin.Prelude.Eq.{list_eq, nat_eq}
use skepticoin.Network.Inventory.{start_from}
use skepticoin.Network.Pool.{squares}
use skepticoin.Prelude.{◌++◌}
use skepticoin.Prelude.Map.Laws.{get_item_ok}

-- The height itself is the first of the heights to ask for.
heights_back_zero :
    (height : ℕ) (os : List ℕ) → heights_back height (0 ∷ os) ≡ height ∷ heights_back height os
unfolding heights_back
heights_back_zero height os = ground arith

recent_first : (height : ℕ) → (rest : List ℕ) × (get_recent_block_heights height ≡ height ∷ rest)
unfolding get_recent_block_heights count_up
recent_first height =
    (heights_back height (count_up 9 1 ++ squares 60 4), heights_back_zero height _)

asked_hashes :
    (hashes : List Bytes) (g : GetBlocksMessage)
    → new_get_blocks hashes ≡ get_blocks g
    → hashes ≡ g.potential_start_hashes
asked_hashes hashes g h = cc

module _ ⦃c : Crypto⦄ where
  hashes_at_first :
      (heights : Map ℕ Block) (x : ℕ) (xs : List ℕ) {b : Block} {hash : Bytes} {hashes : List Bytes}
      → lookup x heights ≡ some b
      → block_hash b ≡ ok hash
      → hashes_at heights (x ∷ xs) ≡ ok hashes
      → (rest : List Bytes) × (hashes ≡ hash ∷ rest)
  unfolding hashes_at get_item
  hashes_at_first heights x xs {b} {hash} {hashes} e1 e2 h =
      (let (b', f1, h1) = >>=-eq_ok (get_item x heights) _ h in
        let (hash', f2, h2) = >>=-eq_ok (block_hash b') _ h1 in
        let (rest, f3, h3) = >>=-eq_ok (hashes_at heights xs) _ h2 in
        let same : b' ≡ b = ok-injective (sym f1 ∙ get_item_ok x heights e1) in
        let first : hash' ≡ hash = ok-injective (sym f2 ∙ ap block_hash same ∙ e2) in
        (rest, sym (ok-injective h3) ∙ ap (λ y. y ∷ rest) first))

  find_start_known :
      (s : CoinState) (heights : Map ℕ Block) (hash : Bytes) (rest : List Bytes) {b : Block}
      → by_height_at_head s ≡ ok heights
      → lookup hash s.block_by_hash ≡ some b
      → lookup (b.height + 1) heights ≡ none
      → find_start s (hash ∷ rest) ≡ ok no_new_info
  unfolding find_start start_from start_of start_after
  find_start_known s heights hash rest e1 e2 e3 = rw (e2, e1, e3) refl

  -- What `get_get_blocks_message` puts first is the hash at the height of the head.
  first_hash :
      (m : ChainManager) (h b : Block) (heights : Map ℕ Block) (hash : Bytes) (g : GetBlocksMessage)
      → CoinState.head m.coinstate ≡ ok h
      → by_height_at_head m.coinstate ≡ ok heights
      → lookup h.height heights ≡ some b
      → block_hash b ≡ ok hash
      → get_get_blocks_message m ≡ ok (get_blocks g)
      → (rest : List Bytes) × (g.potential_start_hashes ≡ hash ∷ rest)
  unfolding get_get_blocks_message
  first_hash m h b heights hash g e1 e2 e3 e4 e5 =
      (let (recent, r) = recent_first h.height in
        let (hashes, f, h') =
          >>=-eq_ok (hashes_at heights (get_recent_block_heights h.height)) _ (rw (e1, e2) at e5) in
        let (rest, first) = hashes_at_first heights h.height recent e3 e4 (rw r at f) in
        (rest, sym (asked_hashes hashes g (ok-injective h')) ∙ first))

  -- A node whose head is the block at its height and is known under its hash, with nothing above it,
  -- has nothing to tell a node with the same coin state: the answer to what `get_get_blocks_message`
  -- asks is an empty inventory.
  pub items_for_synced :
      (m : ChainManager) (h b : Block) (heights : Map ℕ Block) (hash : Bytes) (g : GetBlocksMessage)
      → CoinState.head m.coinstate ≡ ok h
      → by_height_at_head m.coinstate ≡ ok heights
      → lookup h.height heights ≡ some b
      → block_hash b ≡ ok hash
      → lookup hash m.coinstate.block_by_hash ≡ some h
      → lookup (h.height + 1) heights ≡ none
      → get_get_blocks_message m ≡ ok (get_blocks g)
      → items_for m.coinstate g ≡ ok []
  unfolding items_for items_from
  items_for_synced m h b heights hash g e1 e2 e3 e4 known top asked =
      (let (rest, e) = first_hash m h b heights hash g e1 e2 e3 e4 asked in
        rw (e, find_start_known m.coinstate heights hash rest e2 known top) refl)
