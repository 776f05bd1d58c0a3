-- ===== src/Network/Sane/Steps.antt =====
-- Sending, the peers that are told of, and the steps of the managers of skepticoin/networking keep
-- the peers apart.
use skepticoin.Crypto.{Crypto}
use skepticoin.Network.Os.{Host, Os}
use skepticoin.Network.Pool.{ChainManager}
use skepticoin.Network.Sane.{
  IsGood, IsSane, ask-IsGood, call_disk-IsGood, get_peer-IsGood, on_selector-IsGood,
  put_peer-IsGood, send_message-IsGood,
}
use skepticoin.Network.Sane.Peers.{connect_all-IsGood, disconnect-IsGood, learn_peer-IsGood}
use skepticoin.Network.State.{ConnectedPeer, PeerKey}
use skepticoin.Network.Method.{Method}
use skepticoin.Network.Keeps.{Keeps}
use skepticoin.Prelude.{Bytes, List, Option, none, some, [], ◌∷◌, ℕ}
use skepticoin.Network.Keeps.{
  Keeps-bind, Keeps-change, Keeps-gets, Keeps-if, Keeps-lift, Keeps-pure, Keeps-when,
}
use skepticoin.Network.Messages.{HelloMessage, Message, MessageHeader, Peer}
use skepticoin.Network.Node.{ask_for_blocks, chain_step, fetch_from, network_step, step_all}
use skepticoin.Network.Peers.{
  ask_for_peers, connected_entries, connected_entry, disconnected_entries, disconnected_entry,
  drop_self, handle_get_peers, handle_hello, handle_peers, learn_all, learn_host, learn_of,
  peer_step, say_hello,
}
use skepticoin.Network.Sending.{
  handle_can_send, next_buffer, send_backlogged, send_once, stop_sending, when_sent,
}
use skepticoin.Network.State.{DisconnectedPeer}
use skepticoin.Network.Node.{set_fetching}
use skepticoin.Network.Sane.Peers.{sanity_check-IsGood}

module _ ⦃os : Os⦄ (Q : ChainManager → Type 0) where
  when_sent-IsGood :
      (i : ℕ) {m : Method (Unit {0})}
      → Keeps (IsGood IsSane Q) m
      → Keeps (IsGood IsSane Q) (when_sent i m)
  unfolding when_sent
  when_sent-IsGood i h =
      Keeps-bind (IsGood IsSane Q) (get_peer-IsGood IsSane Q i)
        (λ p. Keeps-when (IsGood IsSane Q) _ h)

  send_once-IsGood : (i : ℕ) → Keeps (IsGood IsSane Q) (send_once i)
  unfolding send_once
  send_once-IsGood i = search (Keeps-bind, Keeps-lift, get_peer-IsGood, ask-IsGood, put_peer-IsGood)

  next_buffer-IsGood : (i : ℕ) → Keeps (IsGood IsSane Q) (next_buffer i)
  unfolding next_buffer
  next_buffer-IsGood i = search (Keeps-bind, Keeps-lift, get_peer-IsGood, put_peer-IsGood)

  send_backlogged-IsGood :
      (i : ℕ) (bs : List Bytes) → Keeps (IsGood IsSane Q) (send_backlogged i bs)
  unfolding send_backlogged stop_sending
  send_backlogged-IsGood i [] =
      search (Keeps-bind, send_once-IsGood, when_sent-IsGood, on_selector-IsGood)
  send_backlogged-IsGood i (b ∷ bs) = Keeps-bind (IsGood IsSane Q) (send_once-IsGood i) (λ u.
      when_sent-IsGood i
        (Keeps-bind (IsGood IsSane Q) (next_buffer-IsGood i) (λ u. send_backlogged-IsGood i bs)))

  pub handle_can_send-IsGood : (i : ℕ) → Keeps (IsGood IsSane Q) (handle_can_send i)
  unfolding handle_can_send
  handle_can_send-IsGood i = search (Keeps-bind, get_peer-IsGood, send_backlogged-IsGood)

module _ ⦃os : Os⦄ ⦃c : Crypto⦄ (Q : ChainManager → Type 0) where
  peer_step-IsGood : (t i : ℕ) → Keeps (IsGood IsSane Q) (peer_step t i)
  unfolding peer_step say_hello ask_for_peers
  peer_step-IsGood t i =
      search
        (
          Keeps-bind, Keeps-when, Keeps-lift, Keeps-gets, get_peer-IsGood, put_peer-IsGood,
          send_message-IsGood,
        )
        depth 9

  drop_self-IsGood : (i : ℕ) (p : ConnectedPeer) → Keeps (IsGood IsSane Q) (drop_self i p)
  unfolding drop_self
  drop_self-IsGood i p =
      Keeps-bind (IsGood IsSane Q)
        (Keeps-change (IsGood IsSane Q) _ (λ n g. record { sane = g.sane; chain = g.chain }))
        (λ u. disconnect-IsGood Q i)

  pub handle_hello-IsGood :
      (i : ℕ) (h : MessageHeader) (m : HelloMessage) → Keeps (IsGood IsSane Q) (handle_hello i h m)
  unfolding handle_hello learn_of
  handle_hello-IsGood i h m =
      search
        (
          Keeps-bind, Keeps-when, Keeps-gets, get_peer-IsGood, put_peer-IsGood, learn_peer-IsGood,
          call_disk-IsGood, drop_self-IsGood,
        )
        depth 9

  connected_entries-IsGood :
      (ps : List (PeerKey × ℕ)) → Keeps (IsGood IsSane Q) (connected_entries ps)
  unfolding connected_entries connected_entry
  connected_entries-IsGood [] = Keeps-pure (IsGood IsSane Q) []
  connected_entries-IsGood ((k, i) ∷ ps) =
      Keeps-bind (IsGood IsSane Q) (get_peer-IsGood IsSane Q i) (λ p.
        Keeps-bind (IsGood IsSane Q)
          (search (Keeps-bind, Keeps-if, Keeps-lift, Keeps-pure, ask-IsGood) depth 9)
          (λ e.
            Keeps-bind (IsGood IsSane Q) (connected_entries-IsGood ps)
              (λ es. Keeps-pure (IsGood IsSane Q) _)))

  disconnected_entries-IsGood :
      (ps : List (PeerKey × DisconnectedPeer)) → Keeps (IsGood IsSane Q) (disconnected_entries ps)
  unfolding disconnected_entries disconnected_entry
  disconnected_entries-IsGood [] = Keeps-pure (IsGood IsSane Q) []
  disconnected_entries-IsGood ((k, d) ∷ ps) =
      Keeps-bind (IsGood IsSane Q) (search (Keeps-bind, Keeps-if, Keeps-lift, Keeps-pure) depth 9)
        (λ e.
          Keeps-bind (IsGood IsSane Q) (disconnected_entries-IsGood ps)
            (λ es. Keeps-pure (IsGood IsSane Q) _))

  pub handle_get_peers-IsGood :
      (i : ℕ) (h : MessageHeader) → Keeps (IsGood IsSane Q) (handle_get_peers i h)
  unfolding handle_get_peers
  handle_get_peers-IsGood i h = search (
    Keeps-bind, Keeps-gets, connected_entries-IsGood, disconnected_entries-IsGood,
    send_message-IsGood,
  )

  learn_host-IsGood : (o : Option Host) (port : ℕ) → Keeps (IsGood IsSane Q) (learn_host o port)
  unfolding learn_host
  learn_host-IsGood none port = Keeps-pure (IsGood IsSane Q) tt
  learn_host-IsGood (some host) port = learn_peer-IsGood Q _

  learn_all-IsGood : (ps : List Peer) → Keeps (IsGood IsSane Q) (learn_all ps)
  unfolding learn_all
  learn_all-IsGood [] = Keeps-pure (IsGood IsSane Q) tt
  learn_all-IsGood (p ∷ ps) =
      Keeps-bind (IsGood IsSane Q) (learn_host-IsGood _ p.port) (λ u. learn_all-IsGood ps)

  pub handle_peers-IsGood : (i : ℕ) (ps : List Peer) → Keeps (IsGood IsSane Q) (handle_peers i ps)
  unfolding handle_peers
  handle_peers-IsGood i ps = search (Keeps-bind, get_peer-IsGood, put_peer-IsGood, learn_all-IsGood)

  step_all-IsGood : (t : ℕ) (is : List ℕ) → Keeps (IsGood IsSane Q) (step_all t is)
  unfolding step_all
  step_all-IsGood t [] = Keeps-pure (IsGood IsSane Q) tt
  step_all-IsGood t (i ∷ is) =
      Keeps-bind (IsGood IsSane Q) (peer_step-IsGood t i) (λ u. step_all-IsGood t is)

  pub network_step-IsGood : (t : ℕ) → Keeps (IsGood IsSane Q) (network_step t)
  unfolding network_step
  network_step-IsGood t =
      search (Keeps-bind, Keeps-gets, sanity_check-IsGood, connect_all-IsGood, step_all-IsGood)
        depth 9

  set_fetching-IsGood : (l : List (ℕ × ℕ)) → Keeps (IsGood IsSane Q) (set_fetching l)
  unfolding set_fetching
  set_fetching-IsGood l =
      Keeps-change (IsGood IsSane Q) _ (λ n g. record { sane = g.sane; chain = g.chain })

  ask_for_blocks-IsGood : (t i : ℕ) (m : Message) → Keeps (IsGood IsSane Q) (ask_for_blocks t i m)
  unfolding ask_for_blocks
  ask_for_blocks-IsGood t i m =
      search
        (
          Keeps-bind, get_peer-IsGood, put_peer-IsGood, set_fetching-IsGood, Keeps-gets,
          send_message-IsGood,
        )
        depth 9

  fetch_from-IsGood : (t : ℕ) (is : List ℕ) → Keeps (IsGood IsSane Q) (fetch_from t is)
  unfolding fetch_from
  fetch_from-IsGood t is =
      search
        (
          Keeps-bind, Keeps-gets, Keeps-when, Keeps-lift, set_fetching-IsGood, ask-IsGood,
          ask_for_blocks-IsGood,
        )
        depth 9

  pub chain_step-IsGood : (t : ℕ) → Keeps (IsGood IsSane Q) (chain_step t)
  unfolding chain_step
  chain_step-IsGood t = search (Keeps-bind, Keeps-gets, Keeps-lift, Keeps-when, fetch_from-IsGood)
