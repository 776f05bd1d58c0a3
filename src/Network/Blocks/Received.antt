-- ===== src/Network/Blocks/Received.antt =====
-- What `handle_block_received` of skepticoin/networking/remote_peer.py makes of the coin state.
use skepticoin.Crypto.{Crypto}
use skepticoin.CoinState
use skepticoin.CoinState.{CoinState, add_block_no_validation}
use skepticoin.Consensus.Validate.{add_block, validate_block_by_itself, validate_block_in_coinstate}
use skepticoin.Datatypes.{Block}
use skepticoin.Network.Os.{Os}
use skepticoin.Network.Blocks.{
  accept_block, after_validation, go_back, handle_block_received, if_valid, must_validate,
  receive_new_block, set_node_coinstate,
}
use skepticoin.Network.Keeps.{Keeps, bind_at, Keeps-bind, Keeps-change, Keeps-gets, lift_at}
use skepticoin.Network.Messages.{MessageHeader}
use skepticoin.Network.Method.{◌>>=◌}
use skepticoin.Network.Pool.{ChainManager, set_coinstate}
use skepticoin.Network.Sane.{IsGood, call_disk-IsGood}
use skepticoin.Network.Sane.Broadcast.{announce-IsGood}
use skepticoin.Network.State.{Node}
use skepticoin.Prelude.{Bool, List, Option, none, some, ℕ, ◌≡◌, ◌⊎◌, inl, inr, refl}
use skepticoin.Prelude.Result.{Error, Result, err, ok}
use mathlib.Core.Path.{subst}
use skepticoin.Network.Method.{on_chain_manager}
use skepticoin.Network.Pool.{valid_transactions, with_pool}
use skepticoin.Network.State.{clear_write_buffer}
use skepticoin.Prelude.{ap, arith, false, sym, true, ◌∙◌}
use skepticoin.Datatypes.{Transaction}
use skepticoin.Network.Inventory.Exchange.{remove_from_inventory}
use skepticoin.Network.Keeps.{Keeps-lift, Keeps-pure}
use skepticoin.Network.Method.{ask, call_disk, get_peer, put_peer}
use skepticoin.Prelude.{Bytes}
use skepticoin.Network.Keeps.{ask_at, change_at, gets_at, if_at}
use skepticoin.Datatypes.Hash.{block_hash}
use skepticoin.Network.Keeps.{leads_bind, when_at}
use skepticoin.Network.Method.{lift, pure}
use skepticoin.Prelude.Eq.{list_eq, nat_eq}
use skepticoin.Prelude.Map.{contains}

with_pool-coinstate :
    ⦃c : Crypto⦄ (m : ChainManager) (s : CoinState) (v : Bool) (r : Result (List Transaction))
    → (with_pool m s v r).1.coinstate ≡ s
unfolding with_pool
with_pool-coinstate m s v (err e) = refl
with_pool-coinstate m s v (ok pool) = refl

pub set_coinstate-coinstate :
    ⦃c : Crypto⦄ (m : ChainManager) (s : CoinState) (v : Bool)
    → (set_coinstate m s v).1.coinstate ≡ s
unfolding set_coinstate
set_coinstate-coinstate m s v = with_pool-coinstate m s v (valid_transactions s m.transaction_pool)

module _ ⦃os : Os⦄ ⦃c : Crypto⦄ (m0 : ChainManager) (b : Block) (now : ℕ) where
  -- The block is new, and its parent is known.
  pub record IsNext : Type 0 where
    pub hash : Bytes
    pub hash_found : block_hash b ≡ ok hash
    pub is_new : contains hash m0.coinstate.block_by_hash ≡ false
    pub parent : contains b.previous_block_hash m0.coinstate.block_by_hash ≡ true

  -- The state is the last that was known to be valid, and there was reason to go back to it: the next
  -- block is valid by itself and can be added, but it is not valid in the state.
  pub record WentBack (s : CoinState) : Type 0 where
    pub last : m0.last_known_valid_coinstate ≡ some s
    pub next : IsNext
    pub own : validate_block_by_itself b now ≡ ok tt
    pub added : CoinState
    pub can_be_added : add_block_no_validation m0.coinstate b ≡ ok added
    pub error : Error
    pub failed : validate_block_in_coinstate b m0.coinstate ≡ err error

  -- The coin state as it was, the last that was known to be valid after a block that failed in its
  -- chain, or the state with the block, which is fully valid.
  abbrev pub Settled : CoinState → Type 0
  Settled s = (s ≡ m0.coinstate) ⊎ (WentBack s ⊎ (add_block m0.coinstate b now ≡ ok s))

  abbrev Fine : Node → Type 0
  Fine n = IsGood (λ c d. Unit) (λ m. Settled m.coinstate) n

  fine : (n : Node) → Settled n.chain_manager.coinstate → Fine n
  fine n o = record { sane = tt; chain = o }

  set-Fine : (s : CoinState) (v : Bool) (n : Node) → Settled s → Fine (set_node_coinstate s v n).1
  unfolding set_node_coinstate on_chain_manager
  set-Fine s v n o = fine _ (subst Settled (sym (set_coinstate-coinstate n.chain_manager s v)) o)

  go_back-Fine :
      (o : Option CoinState) (n : Node)
      → ((s : CoinState) → o ≡ some s → WentBack s)
      → Fine n
      → Fine (go_back o n).1
  unfolding go_back
  go_back-Fine none n e f = (call_disk-IsGood (λ c d. Unit) _ clear_write_buffer).kept n f
  go_back-Fine (some s) n e f =
      bind_at Fine _ _ (set-Fine s true n (inr (inl (e s refl))))
        (λ u. call_disk-IsGood (λ c d. Unit) _ _)

  add_block-eq_ok :
      {changed : CoinState}
      → validate_block_by_itself b now ≡ ok tt
      → add_block_no_validation m0.coinstate b ≡ ok changed
      → validate_block_in_coinstate b m0.coinstate ≡ ok tt
      → add_block m0.coinstate b now ≡ ok changed
  unfolding add_block
  add_block-eq_ok own added fits = rw own (rw fits added)

  after_validation-Fine :
      (h : MessageHeader) (changed : CoinState) (r : Result (Unit {0})) (n : Node)
      → IsNext
      → validate_block_by_itself b now ≡ ok tt
      → add_block_no_validation m0.coinstate b ≡ ok changed
      → validate_block_in_coinstate b m0.coinstate ≡ r
      → n.chain_manager ≡ m0
      → Fine (after_validation h b changed r n).1
  unfolding after_validation
  after_validation-Fine h changed (err x) n next own added e same = gets_at Fine _ _ (
      go_back-Fine n.chain_manager.last_known_valid_coinstate n
        (λ s found. record {
          last = ap (λ m. m.last_known_valid_coinstate) (sym same) ∙ found;
          next = next;
          own = own;
          added = changed;
          can_be_added = added;
          error = x;
          failed = e;
        })
        (fine n (inl (ap (λ m. m.coinstate) same))))
  after_validation-Fine h changed (ok tt) n next own added e same =
      bind_at Fine _ _ (set-Fine changed true n (inr (inr (add_block-eq_ok own added e)))) (λ u.
        Keeps-bind Fine (call_disk-IsGood (λ c d. Unit) _ _)
          (λ u. announce-IsGood (λ c d. Unit) _ h b changed))

  -- A block that was not asked for must be validated.
  must_validate_lem : (h : MessageHeader) → h.in_response_to ≡ 0 → must_validate h b ≡ true
  unfolding must_validate
  must_validate_lem h e = rw e refl

  accept-Fine :
      (h : MessageHeader) (n : Node)
      → h.in_response_to ≡ 0
      → IsNext
      → validate_block_by_itself b now ≡ ok tt
      → n.chain_manager ≡ m0
      → Fine (accept_block h b m0.coinstate n).1
  unfolding accept_block call_disk
  accept-Fine h n e next own same = change_at Fine _ _ (
      lift_at Fine (add_block_no_validation m0.coinstate b) _
        (λ changed added.
          rw (must_validate_lem h e) (after_validation-Fine h changed _ _ next own added refl same))
        (fine _ (inl (ap (λ m. m.coinstate) same))))

  if_valid-Fine :
      (h : MessageHeader) (n : Node) (r : Result (Unit {0}))
      → h.in_response_to ≡ 0
      → IsNext
      → validate_block_by_itself b now ≡ r
      → n.chain_manager ≡ m0
      → Fine (if_valid h b m0.coinstate r n).1
  unfolding if_valid
  if_valid-Fine h n (err x) e next own same =
      (Keeps-bind Fine (Keeps-lift Fine _) (λ u. Keeps-pure Fine tt)).kept n
        (fine n (inl (ap (λ m. m.coinstate) same)))
  if_valid-Fine h n (ok tt) e next own same = accept-Fine h n e next own same

module _ ⦃os : Os⦄ ⦃c : Crypto⦄ where
  -- The chain manager is as it was, and so is the time.
  record IsBefore (m0 : ChainManager) (calls : ℕ) (n : Node) : Type 0 where
    chain : n.chain_manager ≡ m0
    time : n.calls ≡ calls

  remove-IsBefore :
      (m0 : ChainManager) (k i : ℕ) (hash : Bytes)
      → Keeps (IsBefore m0 k) (remove_from_inventory i hash)
  unfolding remove_from_inventory get_peer put_peer
  remove-IsBefore m0 k i hash =
      Keeps-bind (IsBefore m0 k) (Keeps-gets (IsBefore m0 k) _)
        (λ p. Keeps-change (IsBefore m0 k) _ (λ n f. record { chain = f.chain; time = f.time }))

  before-Fine :
      (m0 : ChainManager) (b : Block) (now k : ℕ) (n : Node) → IsBefore m0 k n → Fine m0 b now n
  before-Fine m0 b now k n f = fine m0 b now n (inl (ap (λ m. m.coinstate) f.chain))

  look_up-Fine :
      (m0 : ChainManager) (b : Block) (now k : ℕ) (n : Node)
      → IsBefore m0 k n
      → Fine m0 b now ((lift (CoinState.head m0.coinstate) >>= λ u. pure tt) n).1
  look_up-Fine m0 b now k n f =
      (Keeps-bind (Fine m0 b now) (Keeps-lift (Fine m0 b now) (CoinState.head m0.coinstate))
          (λ u. Keeps-pure (Fine m0 b now) tt)).kept
        n (before-Fine m0 b now k n f)

  receive-Fine :
      (m0 : ChainManager) (b : Block) (h : MessageHeader) (n : Node) {hash : Bytes}
      → h.in_response_to ≡ 0
      → block_hash b ≡ ok hash
      → contains hash m0.coinstate.block_by_hash ≡ false
      → IsBefore m0 n.calls n
      → Fine m0 b (os.clock n.calls) (receive_new_block h b m0.coinstate n).1
  unfolding receive_new_block
  receive-Fine m0 b h n {hash} e found new f =
      if_at (Fine m0 b (os.clock n.calls))
        (contains b.previous_block_hash m0.coinstate.block_by_hash)
        (ask os.clock >>= λ now. if_valid h b m0.coinstate (validate_block_by_itself b now))
        (lift (CoinState.head m0.coinstate) >>= λ u. pure tt)
        (λ known.
          ask_at (Fine m0 b (os.clock n.calls)) os.clock
            (λ now. if_valid h b m0.coinstate (validate_block_by_itself b now))
            (if_valid-Fine m0 b (os.clock n.calls) h _ _ e
              (record { hash = hash; hash_found = found; is_new = new; parent = known }) refl
              f.chain))
        (look_up-Fine m0 b (os.clock n.calls) n.calls n f)

  receive_before :
      (m0 : ChainManager) (b : Block) (h : MessageHeader) (k : ℕ) (n : Node) {hash : Bytes}
      → h.in_response_to ≡ 0
      → block_hash b ≡ ok hash
      → contains hash m0.coinstate.block_by_hash ≡ false
      → IsBefore m0 k n
      → Fine m0 b (os.clock k) (receive_new_block h b m0.coinstate n).1
  receive_before m0 b h k n e found new f =
      subst (λ j. Fine m0 b (os.clock j) (receive_new_block h b m0.coinstate n).1) f.time
        (receive-Fine m0 b h n e found new (record { chain = f.chain; time = refl }))

  handle-Fine :
      (i : ℕ) (h : MessageHeader) (b : Block) (n : Node)
      → h.in_response_to ≡ 0
      → Fine n.chain_manager b (os.clock n.calls) (handle_block_received i h b n).1
  unfolding handle_block_received
  handle-Fine i h b n e =
      (let F = Fine n.chain_manager b (os.clock n.calls) in
        let start : IsBefore n.chain_manager n.calls n = record { chain = refl; time = refl } in
        let weaken = before-Fine n.chain_manager b (os.clock n.calls) n.calls in
        gets_at F _ _ (
          lift_at F (block_hash b) _
            (λ hash known.
              leads_bind (IsBefore n.chain_manager n.calls) F _ weaken
                (remove-IsBefore n.chain_manager n.calls i hash)
                (λ u n' f.
                  when_at F _ _
                    (λ new. receive_before n.chain_manager b h n.calls n' e known (ground arith) f)
                    (weaken n' f))
                n start)
            (weaken n start)))

  -- A block that a peer sends unasked changes the coin state only to one of two. One is the state with
  -- the block, if the block passes every check of consensus at the time of the clock. The other is the
  -- last state that was known to be valid, if the block is new, its parent is known and it is valid by
  -- itself, but its validation in the coin state fails. Whatever is raised, it is one of these or the
  -- state as it was.
  pub handle_block_received-Settled :
      (i : ℕ) (h : MessageHeader) (b : Block) (n : Node)
      → h.in_response_to ≡ 0
      → Settled n.chain_manager b
          (os.clock n.calls)
          (handle_block_received i h b n).1.chain_manager.coinstate
  handle_block_received-Settled i h b n e = (handle-Fine i h b n e).chain
