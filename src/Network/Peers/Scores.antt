-- ===== src/Network/Peers/Scores.antt =====
-- What the peers that are announced do to those that are known (`handle_peers_message_received` of
-- skepticoin/networking/remote_peer.py).
use skepticoin.Crypto.{Crypto}
use skepticoin.Network.Os.{Host, Os}
use skepticoin.Network.Keeps.{Keeps}
use skepticoin.Network.Manager.{add_disconnected, sanity_check}
use skepticoin.Network.Messages.{Peer}
use skepticoin.Network.Peers.{handle_peers, learn_all, learn_host, learn_peer}
use skepticoin.Network.State.{DisconnectedPeer, Node, PeerKey, peer_key_eq}
use skepticoin.Prelude.{List, Option, none, some, [], ◌∷◌, ◌≡◌, ℕ, arith, true}
use skepticoin.Prelude.Map.{contains, lookup}
use skepticoin.Network.Keeps.{
  bind_at, Keeps-bind, Keeps-change, Keeps-gets, Keeps-pure, Keeps-self, when_at,
}
use skepticoin.Network.Method.{change, get_peer, put_peer}
use skepticoin.Prelude.{Bool, not, ◌&&◌}
use skepticoin.Prelude.Eq.{list_eq, nat_eq, ≟_iff}
use skepticoin.Prelude.Map.Laws.{lookup-insert}

module _ ⦃os : Os⦄ (k : PeerKey) (d : DisconnectedPeer) where
  record Knows (n : Node) : Type 0 where
    known : lookup k n.disconnected_peers ≡ some d

  check-Knows : Keeps Knows sanity_check
  unfolding sanity_check
  check-Knows = record { kept = λ n p. p }

  add-Knows :
      (j : PeerKey) (e : DisconnectedPeer) (n : Node) (b : Bool)
      → (not (contains j n.disconnected_peers) && b) ≡ true
      → Knows n
      → Knows (add_disconnected j e n).1
  unfolding add_disconnected change contains
  add-Knows j e n b new p = record {
    known = ground (arith, p.known, ≟_iff j k, lookup-insert j k e n.disconnected_peers);
  }

  learn-Knows : (j : PeerKey) → Keeps Knows (learn_peer j)
  unfolding learn_peer
  learn-Knows j = Keeps-bind Knows check-Knows (λ u. Keeps-self Knows _ _ (λ n p.
      bind_at Knows _ _ (when_at Knows _ _ (λ e. add-Knows j _ n _ e p) p) (λ u. check-Knows)))

module _ ⦃os : Os⦄ ⦃c : Crypto⦄ (k : PeerKey) (d : DisconnectedPeer) where
  host-Knows : (o : Option Host) (port : ℕ) → Keeps (Knows k d) (learn_host o port)
  unfolding learn_host
  host-Knows none port = Keeps-pure (Knows k d) tt
  host-Knows (some host) port = learn-Knows k d _

  all-Knows : (ps : List Peer) → Keeps (Knows k d) (learn_all ps)
  unfolding learn_all
  all-Knows [] = Keeps-pure (Knows k d) tt
  all-Knows (p ∷ ps) = Keeps-bind (Knows k d) (host-Knows _ p.port) (λ u. all-Knows ps)

  peers-Knows : (i : ℕ) (ps : List Peer) → Keeps (Knows k d) (handle_peers i ps)
  unfolding handle_peers get_peer put_peer
  peers-Knows i ps = Keeps-bind (Knows k d) (Keeps-gets (Knows k d) _) (λ p.
      Keeps-bind (Knows k d) (Keeps-change (Knows k d) _ (λ n h. record { known = h.known }))
        (λ u. all-Knows ps))

  -- Peers that another node announces leave a disconnected peer that is known as it is: its score and
  -- its last attempt are not overwritten.
  pub handle_peers-lookup :
      (i : ℕ) (ps : List Peer) (n : Node)
      → lookup k n.disconnected_peers ≡ some d
      → lookup k (handle_peers i ps n).1.disconnected_peers ≡ some d
  handle_peers-lookup i ps n h = ((peers-Knows i ps).kept n (record { known = h })).known
