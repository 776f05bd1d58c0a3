-- ===== src/Mining/Found.antt =====
-- What becomes of a block that is found in skepticoin/mining.py.
use skepticoin.Crypto.{Crypto}
use skepticoin.CoinState.{CoinState}
use skepticoin.Mining.{
  MinerWatcher, Watching, found_block, handle_request_scrypt_input_message,
  handle_scrypt_output_message, mined, new_mining_key, on_node, reads, take_key, tries, updates,
  watched, ◌>>=◌,
}
use skepticoin.Network.Blocks.{set_node_coinstate}
use skepticoin.Network.Keeps.{Keeps}
use skepticoin.Network.Method
use skepticoin.Network.Os.{Os}
use skepticoin.Network.Sane.{IsGood, ask-IsGood, call_disk-IsGood}
use skepticoin.Network.Sane.Broadcast.{broadcast_message-IsGood}
use skepticoin.Prelude.{Bool, Bytes, ℕ, ◌≡◌, ◌⊎◌, inl, inr, refl, ◌∙◌}
use skepticoin.Prelude.Result.{Result, err, ok}
use skepticoin.Network.Method.{Method}
use skepticoin.Datatypes.{Block}
use skepticoin.Datatypes.Hash.{block_hash}
use skepticoin.Network.Blocks.{broadcast_block}
use skepticoin.Network.Blocks.Received.{set_coinstate-coinstate}
use skepticoin.Network.Keeps.{Keeps-bind, Keeps-lift}
use skepticoin.Network.Method.{on_chain_manager}
use skepticoin.Prelude.{true}
use skepticoin.Consensus.Validate.{bytes_lt}
use skepticoin.Mining.{handle_received_message, request_scrypt_input, scrypt_output}
use skepticoin.Prelude.{false, if◌then◌else◌}

module _ ⦃os : Os⦄ (P : MinerWatcher → Type 0) where
  record Watches {A : Type 0} (m : Watching A) : Type 0 where
    kept : (w : MinerWatcher) → P w → P (m w).1

  watched_at :
      {A B : Type 0} (r : Result A × MinerWatcher) (next : A → Watching B)
      → P r.1
      → ((a : A) → Watches (next a))
      → P (watched r next).1
  watched_at (err e, w) next h k = h
  watched_at (ok a, w) next h k = (k a).kept w h

  Watches-bind :
      {A B : Type 0} {m : Watching A} {next : A → Watching B}
      → Watches m
      → ((a : A) → Watches (next a))
      → Watches (m >>= next)
  unfolding ◌>>=◌
  Watches-bind {m = m} {next = next} h k = record {
    kept = λ w p. watched_at (m w) next (h.kept w p) k;
  }

  Watches-tries : {A : Type 0} (r : Result A) → Watches (tries r)
  unfolding tries
  Watches-tries r = record { kept = λ w p. p }

  Watches-reads : {A : Type 0} (f : MinerWatcher → A) → Watches (reads f)
  unfolding reads
  Watches-reads f = record { kept = λ w p. p }

  Watches-updates :
      (f : MinerWatcher → MinerWatcher) → ((w : MinerWatcher) → P w → P (f w)) → Watches (updates f)
  unfolding updates
  Watches-updates f h = record { kept = h }

  reads_at :
      {A B : Type 0} {w : MinerWatcher} (f : MinerWatcher → A) (next : A → Watching B)
      → P (next (f w) w).1
      → P ((reads f >>= next) w).1
  unfolding reads ◌>>=◌
  reads_at f next p = p

  updates_at :
      {B : Type 0} {w : MinerWatcher} (f : MinerWatcher → MinerWatcher)
      (next : Unit {0} → Watching B)
      → P (next tt (f w)).1
      → P ((updates f >>= next) w).1
  unfolding updates ◌>>=◌
  updates_at f next p = p

  tries_at :
      {A B : Type 0} {w : MinerWatcher} (r : Result A) (next : A → Watching B)
      → P w
      → ((a : A) → P (next a w).1)
      → P ((tries r >>= next) w).1
  unfolding tries ◌>>=◌
  tries_at (err e) next p h = p
  tries_at (ok a) next p h = h a

  node_at :
      {A B : Type 0} {w : MinerWatcher} (m : Method.Method A) (next : A → Watching B)
      → P (record w { node = (m w.node).1 })
      → ((a : A) → Watches (next a))
      → P ((on_node m >>= next) w).1
  unfolding on_node ◌>>=◌
  node_at {w = w} m next p h = watched_at ((m w.node).0, record w { node = (m w.node).1 }) next p h

  either_at :
      {A : Type 0} {w : MinerWatcher} (b : Bool) (m k : Watching A)
      → P (m w).1
      → P (k w).1
      → P ((if b then m else k) w).1
  either_at true m k h g = h
  either_at false m k h g = g

module _ ⦃os : Os⦄ ⦃c : Crypto⦄ (s : CoinState) where
  abbrev AtState : MinerWatcher → Type 0
  AtState w = IsGood (λ c d. Unit) (λ m. m.coinstate ≡ s) w.node

  node-AtState :
      {A : Type 0} (m : Method.Method A)
      → Keeps (IsGood (λ c d. Unit) (λ m. m.coinstate ≡ s)) m
      → Watches AtState (on_node m)
  unfolding on_node
  node-AtState m h = record { kept = λ w p. h.kept w.node p }

  take_key-AtState : (k : ℕ) → Watches AtState (take_key k)
  unfolding take_key
  take_key-AtState k = record { kept = λ w p. p }

  new_mining_key-AtState : Watches AtState new_mining_key
  unfolding new_mining_key
  new_mining_key-AtState = Watches-bind AtState (Watches-reads AtState _) (λ n.
      Watches-bind AtState (node-AtState _ (ask-IsGood (λ c d. Unit) _ _)) (λ k.
        Watches-bind AtState (take_key-AtState k) (λ key. Watches-updates AtState _ (λ w p. p))))

  broadcast_block-AtState :
      (b : Block) → Keeps (IsGood (λ c d. Unit) (λ m. m.coinstate ≡ s)) (broadcast_block b)
  unfolding broadcast_block
  broadcast_block-AtState b =
      Keeps-bind (IsGood (λ c d. Unit) (λ m. m.coinstate ≡ s)) (Keeps-lift _ (block_hash b))
        (λ h. broadcast_message-IsGood (λ c d. Unit) _ _)

  -- The node is set back to the state that was mined on, whatever it was at.
  found_block-AtState :
      (b : Block) (w : MinerWatcher) → w.coinstate ≡ s → AtState (found_block b w).1
  unfolding found_block set_node_coinstate on_chain_manager
  found_block-AtState b w same = reads_at AtState _ _ (
      node_at AtState _ _
        (record {
          sane = tt;
          chain = set_coinstate-coinstate w.node.chain_manager w.coinstate true ∙ same;
        })
        (λ u. Watches-bind AtState (node-AtState _ (broadcast_block-AtState b)) (λ u.
          Watches-bind AtState (node-AtState _ (ask-IsGood (λ c d. Unit) _ os.clock)) (λ now.
            Watches-bind AtState (Watches-tries AtState _) (λ s'.
              Watches-bind AtState (Watches-updates AtState _ (λ w p. p)) (λ u.
                Watches-bind AtState (node-AtState _ (call_disk-IsGood (λ c d. Unit) _ _)) (λ u.
                  Watches-bind AtState (node-AtState _ (call_disk-IsGood (λ c d. Unit) _ _))
                    (λ u. new_mining_key-AtState))))))))

module _ ⦃os : Os⦄ ⦃c : Crypto⦄ where
  -- The state of the node is what it was, or what the miner had.
  abbrev Remains : MinerWatcher → MinerWatcher → Type 0
  Remains w w' =
      (w'.node.chain_manager.coinstate ≡ w.node.chain_manager.coinstate)
      ⊎ (w'.node.chain_manager.coinstate ≡ w.coinstate)

  output-Remains :
      (i : ℕ) (hash : Bytes) (w : MinerWatcher)
      → Remains w (handle_scrypt_output_message i hash w).1
  unfolding handle_scrypt_output_message updates
  output-Remains i hash w = reads_at (Remains w) _ _ (
      tries_at (Remains w) _ _ (inl refl) (λ args. tries_at (Remains w) _ _ (inl refl) (λ evidence.
        tries_at (Remains w) _ _ (inl refl) (λ h.
          either_at (Remains w) (bytes_lt h args.summary.target) (found_block (mined args evidence))
            (updates (λ w'. w'))
            (inr (found_block-AtState w.coinstate (mined args evidence) w refl).chain)
            (inl refl)))))

  -- What the watcher mines on.
  abbrev AsAsked : CoinState → MinerWatcher → Type 0
  AsAsked s w = w.coinstate ≡ s

  request-AsAsked :
      (j nonce : ℕ) (w : MinerWatcher)
      → AsAsked w.node.chain_manager.coinstate (handle_request_scrypt_input_message j nonce w).1
  unfolding handle_request_scrypt_input_message on_node
  request-AsAsked j nonce w =
      (let Q = AsAsked w.node.chain_manager.coinstate in
        reads_at Q _ _ (
          updates_at Q _ _ (
            node_at Q _ _ refl (λ now. Watches-bind Q (Watches-tries Q _) (λ h.
              Watches-bind Q (Watches-reads Q _) (λ w'. Watches-bind Q (Watches-tries Q _) (λ key.
                Watches-bind Q (Watches-tries Q _) (λ input. Watches-updates Q _ (λ w' p. p)))))))))

  -- A miner hands in a hash, and then a miner asks for work. Whatever was found and whatever is raised,
  -- the coin state of the watcher is then the one that the chain manager of the node had before, or the
  -- one that the watcher had before.
  pub found_block_forgotten :
      (i j nonce : ℕ) (hash : Bytes) (w : MinerWatcher)
      → ((handle_received_message j
            (request_scrypt_input nonce)
            (handle_received_message i (scrypt_output hash) w).1).1.coinstate
          ≡ w.node.chain_manager.coinstate)
        ⊎ ((handle_received_message j
              (request_scrypt_input nonce)
              (handle_received_message i (scrypt_output hash) w).1).1.coinstate
            ≡ w.coinstate)
  unfolding handle_received_message
  found_block_forgotten i j nonce hash w =
      (let asked = request-AsAsked j nonce (handle_scrypt_output_message i hash w).1 in
        elim (output-Remains i hash w) [ inl e ↦ inl (asked ∙ e) | inr e ↦ inr (asked ∙ e) ])
