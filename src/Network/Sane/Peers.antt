-- ===== src/Network/Sane/Peers.antt =====
-- `NetworkManager` of skepticoin/networking/manager.py keeps its peers apart: each of its methods.
use skepticoin.Network.Os.{Os}
use skepticoin.Network.Sane.{IsGood, IsSane, get_peer-IsGood, on_selector-IsGood}
use skepticoin.Network.Sane.Maps.{
  erase_connected, insert_connected, insert_disconnected, renew_disconnected,
}
use skepticoin.Network.State.{ConnectedPeer, DisconnectedPeer, Node, PeerKey, peer_key_eq}
use skepticoin.Network.Method.{Method, when, lift, gets, change, ◌>>=◌}
use skepticoin.Prelude.{Bool, List, Option, none, some, [], ◌∷◌, true, false, ◌≡◌, refl, ℕ, arith}
use skepticoin.Prelude.Map.{contains, del_item, insert, lookup}
use skepticoin.Prelude.Result.{Result, err, ok}
use skepticoin.Network.Keeps.{Keeps, Keeps-bind, Keeps-change, Keeps-gets, Keeps-when}
use skepticoin.Network.Manager.{
  add_disconnected, count_ban, handle_peer_disconnected, move_disconnected, sanity_check,
}
use skepticoin.Network.Method.{get_peer, put_peer}
use skepticoin.Network.Pool.{ChainManager}
use skepticoin.Prelude.Eq.{list_eq, nat_eq}
use mathlib.Core.Path.{subst}
use skepticoin.Network.Keeps.{bind_at, Keeps-pure, Keeps-quiet, Keeps-self, leads_bind, when_at}
use skepticoin.Network.Manager.{
  add_connected, connect_all, connect_to, disconnect, drop_connected, drop_duplicate,
  handle_peer_connected, open_peer, register_peer, start_outgoing_connection,
}
use skepticoin.Network.Method.{after}
use skepticoin.Network.Peers.{learn_peer}
use skepticoin.Network.State.{as_disconnected}
use skepticoin.Prelude.{if◌then◌else◌, not, sym, ◌&&◌}
use skepticoin.Prelude.Map.{Map}
use skepticoin.Prelude.Map.Laws.{
  contains-eq_false, contains-eq_true, del_item-eq_ok, lookup-erase_self,
}

-- A peer is dropped before it is put among the disconnected ones.
module _ ⦃os : Os⦄ (Q : ChainManager → Type 0) where
  record IsFree (k : PeerKey) (n : Node) : Type 0 where
    good : IsGood IsSane Q n
    free : lookup k n.connected_peers ≡ none

  put_peer-IsFree : (k : PeerKey) (i : ℕ) (p : ConnectedPeer) → Keeps (IsFree k) (put_peer i p)
  unfolding put_peer
  put_peer-IsFree k i p =
      Keeps-change (IsFree k) _ (λ n f. record {
        good = record { sane = f.good.sane; chain = f.good.chain };
        free = f.free;
      })

  count_ban-IsFree : (k : PeerKey) (i : ℕ) → Keeps (IsFree k) (count_ban i)
  unfolding count_ban get_peer
  count_ban-IsFree k i = search (Keeps-bind, Keeps-when, Keeps-gets, put_peer-IsFree)

  not_connected :
      (k : PeerKey) (n : Node) (b : Bool)
      → (b && not (contains k n.connected_peers)) ≡ true
      → lookup k n.connected_peers ≡ none
  not_connected k n b e = contains-eq_false k n.connected_peers (ground arith)

  get_peer-IsFree : (k : PeerKey) (i : ℕ) → Keeps (IsFree k) (get_peer i)
  unfolding get_peer
  get_peer-IsFree k i = Keeps-gets (IsFree k) _

  add_free :
      (k : PeerKey) (d : DisconnectedPeer) (n : Node)
      → IsFree k n
      → IsGood IsSane Q (add_disconnected k d n).1
  unfolding add_disconnected change
  add_free k d n f = record {
    sane = insert_disconnected k d f.free f.good.sane;
    chain = f.good.chain;
  }

  add_peer_free :
      (k : PeerKey) (i : ℕ) (n : Node)
      → IsFree k n
      → IsGood IsSane Q ((get_peer i >>= λ p. add_disconnected k (as_disconnected p)) n).1
  add_peer_free k i =
      leads_bind (IsFree k) (IsGood IsSane Q) _ (λ n f. f.good) (get_peer-IsFree k i)
        (λ p. add_free k (as_disconnected p))

  free_add :
      (k : PeerKey) (i : ℕ) (n : Node) → IsFree k n → IsGood IsSane Q (move_disconnected i k n).1
  unfolding move_disconnected
  free_add k i =
      leads_bind (IsFree k) (IsGood IsSane Q) _ (λ n f. f.good) (count_ban-IsFree k i)
        (λ u. add_peer_free k i)

  pub sanity_check-IsGood : Keeps (IsGood IsSane Q) sanity_check
  unfolding sanity_check
  sanity_check-IsGood = record { kept = λ n g. g }

  dropped :
      (k : PeerKey) (n : Node) (next : Method (Unit {0})) (r : Result (Map PeerKey ℕ))
      → IsGood IsSane Q n
      → del_item k n.connected_peers ≡ r
      → ((n : Node) → IsFree k n → IsGood IsSane Q (next n).1)
      → IsGood IsSane Q
          (after
            (after (r, n) (λ rest. change (λ n. record n { connected_peers = rest })))
            (λ u. next)).1
  unfolding change
  dropped k n next (err e) g h free = g
  dropped k n next (ok rest) g h free =
      (let (i, known, e) = del_item-eq_ok k n.connected_peers h in
        free (record n { connected_peers = rest })
          (record {
            good = record {
              sane = subst (λ m. IsSane m n.disconnected_peers) (sym e) (erase_connected k g.sane);
              chain = g.chain;
            };
            free = rw e (lookup-erase_self k n.connected_peers g.sane.connected_unique);
          }))

  drop-IsGood :
      (k : PeerKey) (next : Method (Unit {0}))
      → ((n : Node) → IsFree k n → IsGood IsSane Q (next n).1)
      → Keeps (IsGood IsSane Q) (drop_connected k >>= λ u. next)
  unfolding drop_connected gets lift ◌>>=◌
  drop-IsGood k next free = record {
    kept = λ n g. dropped k n next (del_item k n.connected_peers) g refl free;
  }

  when_free :
      (b : Bool) (k : PeerKey) (m : Method (Unit {0})) (n : Node)
      → ((n : Node) → IsFree k n → IsGood IsSane Q (m n).1)
      → IsFree k n
      → IsGood IsSane Q (when b m n).1
  when_free b k m n h f = when_at (IsGood IsSane Q) b m (λ e. h n f) f.good

  handle_peer_disconnected-IsGood : (i : ℕ) → Keeps (IsGood IsSane Q) (handle_peer_disconnected i)
  unfolding handle_peer_disconnected
  handle_peer_disconnected-IsGood i =
      Keeps-bind (IsGood IsSane Q) (get_peer-IsGood IsSane Q i) (λ p.
        Keeps-bind (IsGood IsSane Q) sanity_check-IsGood (λ u. drop-IsGood p.key _ (λ n f.
          bind_at (IsGood IsSane Q) _ _ (when_free _ p.key _ n (free_add p.key i) f)
            (λ u. sanity_check-IsGood))))

  pub disconnect-IsGood : (i : ℕ) → Keeps (IsGood IsSane Q) (disconnect i)
  unfolding disconnect
  disconnect-IsGood i =
      search (Keeps-quiet, Keeps-bind, on_selector-IsGood, handle_peer_disconnected-IsGood)

  drop_duplicate-IsGood : (o : Option ℕ) → Keeps (IsGood IsSane Q) (drop_duplicate o)
  unfolding drop_duplicate
  drop_duplicate-IsGood none = Keeps-pure (IsGood IsSane Q) tt
  drop_duplicate-IsGood (some i) = disconnect-IsGood i

  add_connected-IsGood : (k : PeerKey) (i : ℕ) → Keeps (IsGood IsSane Q) (add_connected k i)
  unfolding add_connected
  add_connected-IsGood k i =
      Keeps-change (IsGood IsSane Q) _
        (λ n g. record { sane = insert_connected k i g.sane; chain = g.chain })

  handle_peer_connected-IsGood : (i : ℕ) → Keeps (IsGood IsSane Q) (handle_peer_connected i)
  unfolding handle_peer_connected
  handle_peer_connected-IsGood i =
      search
        (
          Keeps-bind, Keeps-gets, get_peer-IsGood, drop_duplicate-IsGood, sanity_check-IsGood,
          add_connected-IsGood,
        )
        depth 8

  open_peer-IsGood : (p : ConnectedPeer) → Keeps (IsGood IsSane Q) (open_peer p)
  unfolding open_peer
  open_peer-IsGood p = record { kept = λ n g. record { sane = g.sane; chain = g.chain } }

  pub register_peer-IsGood : (p : ConnectedPeer) → Keeps (IsGood IsSane Q) (register_peer p)
  unfolding register_peer
  register_peer-IsGood p =
      search (Keeps-bind, open_peer-IsGood, on_selector-IsGood, handle_peer_connected-IsGood)

  start_outgoing_connection-IsGood :
      (d : DisconnectedPeer) → Keeps (IsGood IsSane Q) (start_outgoing_connection d)
  unfolding start_outgoing_connection
  start_outgoing_connection-IsGood d =
      search (Keeps-bind, Keeps-gets, Keeps-when, register_peer-IsGood)

  noted :
      (b : Bool) (d : DisconnectedPeer) (n : Node)
      → contains d.key n.disconnected_peers ≡ b
      → (d' : DisconnectedPeer) → IsGood IsSane Q n
      → IsSane n.connected_peers
          (if b then insert d.key d' n.disconnected_peers else n.disconnected_peers)
  noted true d n e d' g =
      renew_disconnected d.key d' (contains-eq_true d.key n.disconnected_peers e).1 g.sane
  noted false d n e d' g = g.sane

  connect_to-IsGood : (t : ℕ) (d : DisconnectedPeer) → Keeps (IsGood IsSane Q) (connect_to t d)
  unfolding connect_to
  connect_to-IsGood t d =
      Keeps-bind (IsGood IsSane Q)
        (Keeps-change (IsGood IsSane Q) _
          (λ n g. record { sane = noted _ d n refl _ g; chain = g.chain }))
        (λ u. start_outgoing_connection-IsGood _)

  pub connect_all-IsGood :
      (t : ℕ) (ds : List DisconnectedPeer) → Keeps (IsGood IsSane Q) (connect_all t ds)
  unfolding connect_all
  connect_all-IsGood t [] = Keeps-pure (IsGood IsSane Q) tt
  connect_all-IsGood t (d ∷ ds) =
      Keeps-bind (IsGood IsSane Q) (Keeps-gets (IsGood IsSane Q) _) (λ mine.
        Keeps-bind (IsGood IsSane Q) (Keeps-when (IsGood IsSane Q) _ (connect_to-IsGood t d))
          (λ u. connect_all-IsGood t ds))

  pub learn_peer-IsGood : (k : PeerKey) → Keeps (IsGood IsSane Q) (learn_peer k)
  unfolding learn_peer
  learn_peer-IsGood k = Keeps-bind (IsGood IsSane Q) sanity_check-IsGood (λ u.
      Keeps-self (IsGood IsSane Q) _ _ (λ n g.
        bind_at (IsGood IsSane Q) _ _
          (when_at (IsGood IsSane Q) _ _
            (λ e. add_free k _ n (record { good = g; free = not_connected k n _ e })) g)
          (λ u. sanity_check-IsGood)))
