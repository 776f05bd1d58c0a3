-- ===== src/Network/Sane/Run.antt =====
-- What holds of a node of skepticoin/networking after any events.
use skepticoin.Crypto.{Crypto}
use skepticoin.CoinState.{CoinState}
use skepticoin.Datatypes.{Transaction}
use skepticoin.Network.Os.{Os}
use skepticoin.Network.Pool.{
  ChainManager, add_transaction_to_pool, pool_with, set_coinstate, validate_for_pool, with_pool,
}
use skepticoin.Network.Pool.Valid.{
  All-snoc, Left-All, Left-references, caught-true, check_references_nil, valid_transactions-Left,
}
use skepticoin.Network.Sane.{IsGood, IsSane}
use skepticoin.Network.Sane.Events.{run-IsGood}
use skepticoin.Network.State.{DisconnectedPeer, Node, PeerKey, peer_key_eq}
use skepticoin.Prelude.{All, Bool, List, Option, [], ◌∷◌, true, false, ℕ, ◌≡◌, refl}
use skepticoin.Prelude.Map.{Map, IsUnique, insert, lookup}
use skepticoin.Prelude.Result.{Result, err, ok}
use skepticoin.Consensus.Validate.{
  check_references, validate_no_duplicate_output_references_in_transactions,
  validate_non_coinbase_transaction_by_itself,
}
use skepticoin.Network.Manager.{load_into, load_peers_from_list, sanity_check}
use skepticoin.Network.Node.{Event, new_node}
use skepticoin.Network.Pool.{caught, valid_transactions, validate_at_head}
use skepticoin.Prelude.{◌&&◌}
use skepticoin.Prelude.Eq.{list_eq, nat_eq}
use skepticoin.Prelude.Map.{contains}
use skepticoin.Prelude.Map.Laws.{insert-IsUnique}
use skepticoin.Prelude.Result.{>>=-eq_ok}
use skepticoin.Network.Node.{node_after}
use skepticoin.Network.Sane.Maps.{any_shared_lem}
use skepticoin.Network.State.{new_disconnected_peer}
use skepticoin.Prelude.Map.Laws.{contains-eq_true, contains-none}
use skepticoin.Prelude.{Bool-cases, inl, inr}

load_into-IsUnique :
    (m : Map PeerKey DisconnectedPeer) (ks : List PeerKey) → IsUnique m → IsUnique (load_into m ks)
unfolding load_into
load_into-IsUnique m [] u = u
load_into-IsUnique m (k ∷ ks) u =
    load_into-IsUnique (insert k (new_disconnected_peer k) m) ks (insert-IsUnique k _ m u)

new_node-IsSane : (keys : List PeerKey) → IsSane [] (load_peers_from_list keys)
unfolding load_peers_from_list lookup
new_node-IsSane keys = record {
  connected_unique = tt;
  disconnected_unique = load_into-IsUnique [] keys tt;
  apart = λ k h. refl;
}

module _ ⦃c : Crypto⦄ where
  -- Each transaction passes alone, and no two inputs spend the same output.
  pub record IsClean (m : ChainManager) : Type 0 where
    pub alone : All (λ t. validate_non_coinbase_transaction_by_itself t ≡ ok tt) m.transaction_pool
    pub distinct : check_references [] m.transaction_pool ≡ ok tt

  with_pool-IsClean :
      (m : ChainManager) (s : CoinState) (v : Bool) (r : Result (List Transaction))
      → valid_transactions s m.transaction_pool ≡ r
      → IsClean m
      → IsClean (with_pool m s v r).1
  unfolding with_pool
  with_pool-IsClean m s v (err e) h p = record { alone = p.alone; distinct = p.distinct }
  with_pool-IsClean m s v (ok pool) h p =
      (let left = valid_transactions-Left s m.transaction_pool h in
        record {
          alone =
              Left-All (λ t. validate_non_coinbase_transaction_by_itself t ≡ ok tt) left p.alone;
          distinct = Left-references [] [] left (λ k e. e) p.distinct;
        })

  set_coinstate-IsClean :
      (m : ChainManager) (s : CoinState) (v : Bool) → IsClean m → IsClean (set_coinstate m s v).1
  unfolding set_coinstate
  set_coinstate-IsClean m s v p = with_pool-IsClean m s v _ refl p

  pool_with-IsClean :
      (m : ChainManager) (t : Transaction) (r : Result Bool)
      → caught (validate_for_pool m t) ≡ r
      → IsClean m
      → IsClean (pool_with m t r).1
  unfolding pool_with validate_for_pool validate_no_duplicate_output_references_in_transactions
  pool_with-IsClean m t (ok true) h p =
      (let (u1, e1, h1) =
          >>=-eq_ok (validate_non_coinbase_transaction_by_itself t) _ (caught-true _ h) in
        let (u2, e2, h2) = >>=-eq_ok (validate_at_head m.coinstate t) _ h1 in
        record {
          alone =
              All-snoc (λ t. validate_non_coinbase_transaction_by_itself t ≡ ok tt)
                m.transaction_pool t p.alone e1;
          distinct = h2;
        })
  pool_with-IsClean m t (ok false) h p = p
  pool_with-IsClean m t (err e) h p = p

  add_transaction_to_pool-IsClean :
      (m : ChainManager) (t : Transaction) → IsClean m → IsClean (add_transaction_to_pool m t).1
  unfolding add_transaction_to_pool
  add_transaction_to_pool-IsClean m t p = pool_with-IsClean m t _ refl p

module _ ⦃os : Os⦄ ⦃c : Crypto⦄ where
  node_after-IsGood :
      (port : Option ℕ) (nonce : ℕ) (selector : os.Selector) (keys : List PeerKey) (s : CoinState)
      (now : ℕ) (events : List Event)
      → IsGood IsSane IsClean (node_after port nonce selector keys s now events)
  unfolding new_node node_after
  node_after-IsGood port nonce selector keys s now events =
      (run-IsGood IsClean set_coinstate-IsClean add_transaction_to_pool-IsClean events).kept _
        (record {
          sane = new_node-IsSane keys;
          chain = record { alone = tt; distinct = check_references_nil };
        })

  sane_check :
      (n : Node) → IsSane n.connected_peers n.disconnected_peers → (sanity_check n).0 ≡ ok tt
  unfolding sanity_check
  sane_check n s =
      rw
        (any_shared_lem n.connected_peers n.disconnected_peers s.connected_unique
          (λ k d e. s.apart k e))
        refl

  sane_apart :
      (k : PeerKey) {connected : Map PeerKey ℕ} {disconnected : Map PeerKey DisconnectedPeer}
      → IsSane connected disconnected
      → (contains k disconnected && contains k connected) ≡ false
  sane_apart k {connected} {disconnected} s = elim (Bool-cases (contains k disconnected)) [
    | inl h ↦
        (let (d, e) = contains-eq_true k disconnected h in
          rw (contains-none k connected (s.apart k e)) (rw h refl))
    | inr h ↦ rw h refl
  ]

  -- Whatever the events are and whatever the selector, the sockets and the other nodes answer, also
  -- when a handler was left by an exception: no peer of a node is both connected and disconnected, and
  -- the sanity check raises nothing.
  pub run-IsSane :
      (port : Option ℕ) (nonce : ℕ) (selector : os.Selector) (keys : List PeerKey) (s : CoinState)
      (now : ℕ) (events : List Event) (k : PeerKey)
      → ((contains k (node_after port nonce selector keys s now events).disconnected_peers
            && contains k (node_after port nonce selector keys s now events).connected_peers)
          ≡ false)
        × ((sanity_check (node_after port nonce selector keys s now events)).0 ≡ ok tt)
  run-IsSane port nonce selector keys s now events k =
      (let g = node_after-IsGood port nonce selector keys s now events in
        (sane_apart k g.sane, sane_check _ g.sane))

  -- Whatever the events are, each transaction in the pool of a node passes the checks of a transaction
  -- by itself, and no two of their inputs spend the same output.
  pub run-IsClean :
      (port : Option ℕ) (nonce : ℕ) (selector : os.Selector) (keys : List PeerKey) (s : CoinState)
      (now : ℕ) (events : List Event)
      → IsClean (node_after port nonce selector keys s now events).chain_manager
  run-IsClean port nonce selector keys s now events =
      (node_after-IsGood port nonce selector keys s now events).chain
