-- ===== src/Network/Sane/Events.antt =====
-- The events of a node of skepticoin/networking, and the run of them.
use skepticoin.Crypto.{Crypto}
use skepticoin.CoinState.{CoinState}
use skepticoin.Network.Os.{Os}
use skepticoin.Network.Pool.{ChainManager, add_transaction_to_pool, set_coinstate}
use skepticoin.Network.Sane.{IsGood, IsSane, get_peer-IsGood, put_peer-IsGood}
use skepticoin.Network.Sane.Peers.{disconnect-IsGood, register_peer-IsGood}
use skepticoin.Network.Sane.Handlers.{
  handle_data-IsGood, handle_get_blocks-IsGood, handle_get_data-IsGood, handle_inventory-IsGood,
}
use skepticoin.Network.State.{Node}
use skepticoin.Network.Method.{Method}
use skepticoin.Network.Keeps.{Keeps}
use skepticoin.Prelude.{Bool, Bytes, List, Option, none, some, [], ◌∷◌, ℕ, zero, suc}
use skepticoin.Prelude.Result.{Result, err, ok}
use skepticoin.Datatypes.{Transaction}
use skepticoin.Network.Keeps.{Keeps-bind, Keeps-if, Keeps-lift, Keeps-pure, Keeps-raise, Keeps-when}
use skepticoin.Network.Messages.{
  Message, MessageHeader, data_message, get_blocks, get_data, get_peers, hello, inventory, peers,
}
use skepticoin.Network.Node.{
  handle_after_hello, handle_given, handle_message_data, handle_message_received, handle_readable,
  handle_receive_data, put_receiver, receive_from,
}
use skepticoin.Network.Peers.{}
use skepticoin.Network.Receiver.{Receiver}
use skepticoin.Network.Manager.{handle_incoming_connection}
use skepticoin.Network.Node.{
  Event, answered, connection, handle_event, handle_read, handle_remote_peer_selector_event,
  managers_step, or_disconnect, run, socket_event,
}
use skepticoin.Network.Sane.Steps.{
  chain_step-IsGood, handle_can_send-IsGood, handle_get_peers-IsGood, handle_hello-IsGood,
  handle_peers-IsGood, network_step-IsGood,
}

module _ ⦃os : Os⦄ ⦃c : Crypto⦄ (Q : ChainManager → Type 0)
    (by_set : (m : ChainManager) (s : CoinState) (v : Bool) → Q m → Q (set_coinstate m s v).1)
    (by_add : (m : ChainManager) (t : Transaction) → Q m → Q (add_transaction_to_pool m t).1) where
  handle_after_hello-IsGood :
      (i : ℕ) (h : MessageHeader) (m : Message) → Keeps (IsGood IsSane Q) (handle_after_hello i h m)
  unfolding handle_after_hello
  handle_after_hello-IsGood i h (hello m) = handle_hello-IsGood Q i h m
  handle_after_hello-IsGood i h (get_blocks m) = handle_get_blocks-IsGood Q by_set by_add i h m
  handle_after_hello-IsGood i h (inventory items) =
      handle_inventory-IsGood Q by_set by_add i h items
  handle_after_hello-IsGood i h (get_data m) = handle_get_data-IsGood Q by_set by_add i h m
  handle_after_hello-IsGood i h (data_message m) = handle_data-IsGood Q by_set by_add i h m
  handle_after_hello-IsGood i h get_peers = handle_get_peers-IsGood Q i h
  handle_after_hello-IsGood i h (peers ps) = handle_peers-IsGood Q i ps

  handle_message_data-IsGood :
      (i : ℕ) (b : Bytes) → Keeps (IsGood IsSane Q) (handle_message_data i b)
  unfolding handle_message_data handle_message_received
  handle_message_data-IsGood i b =
      search
        (Keeps-bind, Keeps-lift, Keeps-if, Keeps-raise, get_peer-IsGood, handle_after_hello-IsGood)
        depth 9

  put_receiver-IsGood : (i : ℕ) (r : Receiver) → Keeps (IsGood IsSane Q) (put_receiver i r)
  unfolding put_receiver
  put_receiver-IsGood i r = search (Keeps-bind, get_peer-IsGood, put_peer-IsGood)

  handle_given-IsGood :
      (i : ℕ) (o : Option Bytes) (r : Receiver) {next : Method (Unit {0})}
      → Keeps (IsGood IsSane Q) next
      → Keeps (IsGood IsSane Q) (handle_given i o r next)
  unfolding handle_given
  handle_given-IsGood i none r h = put_receiver-IsGood i r
  handle_given-IsGood i (some b) r h =
      Keeps-bind (IsGood IsSane Q) (handle_message_data-IsGood i b)
        (λ u. Keeps-bind (IsGood IsSane Q) (put_receiver-IsGood i r) (λ u. h))

  receive_from-IsGood : (fuel i : ℕ) → Keeps (IsGood IsSane Q) (receive_from fuel i)
  unfolding receive_from
  receive_from-IsGood zero i = Keeps-raise (IsGood IsSane Q) _
  receive_from-IsGood (suc fuel) i = Keeps-bind (IsGood IsSane Q) (get_peer-IsGood IsSane Q i) (λ p.
      Keeps-bind (IsGood IsSane Q) (Keeps-lift (IsGood IsSane Q) _)
        (λ g. handle_given-IsGood i g.0 g.1 (receive_from-IsGood fuel i)))

  handle_readable-IsGood : (i : ℕ) (b : Bytes) → Keeps (IsGood IsSane Q) (handle_readable i b)
  unfolding handle_readable handle_receive_data
  handle_readable-IsGood i [] = disconnect-IsGood Q i
  handle_readable-IsGood i (x ∷ b) =
      search (Keeps-bind, get_peer-IsGood, put_receiver-IsGood, receive_from-IsGood)

  answered-IsGood :
      (i : ℕ) (r : Result (Unit {0}) × Node)
      → IsGood IsSane Q r.1
      → IsGood IsSane Q (answered i r).1
  unfolding answered
  answered-IsGood i (err e, n) g = (disconnect-IsGood Q i).kept n g
  answered-IsGood i (ok u, n) g = g

  or_disconnect-IsGood :
      (i : ℕ) {m : Method (Unit {0})}
      → Keeps (IsGood IsSane Q) m
      → Keeps (IsGood IsSane Q) (or_disconnect i m)
  unfolding or_disconnect
  or_disconnect-IsGood i {m} h = record { kept = λ n g. answered-IsGood i (m n) (h.kept n g) }

  readable-IsGood : (i : ℕ) (o : Option (Result Bytes)) → Keeps (IsGood IsSane Q) (handle_read i o)
  unfolding handle_read
  readable-IsGood i none = Keeps-pure (IsGood IsSane Q) tt
  readable-IsGood i (some r) = search (Keeps-bind, Keeps-lift, handle_readable-IsGood)

  socket_event-IsGood :
      (i : ℕ) (o : Option (Result Bytes)) (w : Bool)
      → Keeps (IsGood IsSane Q) (handle_remote_peer_selector_event i o w)
  unfolding handle_remote_peer_selector_event
  socket_event-IsGood i o w = or_disconnect-IsGood i (
      Keeps-bind (IsGood IsSane Q) (readable-IsGood i o)
        (λ u. Keeps-when (IsGood IsSane Q) w (handle_can_send-IsGood Q i)))

  handle_event-IsGood : (e : Event) → Keeps (IsGood IsSane Q) (handle_event e)
  unfolding handle_event handle_incoming_connection
  handle_event-IsGood (managers_step t) =
      search (Keeps-bind, network_step-IsGood, chain_step-IsGood)
  handle_event-IsGood (connection host port) = register_peer-IsGood Q _
  handle_event-IsGood (socket_event i o w) = socket_event-IsGood i o w

  pub run-IsGood : (es : List Event) → Keeps (IsGood IsSane Q) (run es)
  unfolding run
  run-IsGood [] = Keeps-pure (IsGood IsSane Q) tt
  run-IsGood (e ∷ es) = Keeps-bind (IsGood IsSane Q) (handle_event-IsGood e) (λ u. run-IsGood es)
