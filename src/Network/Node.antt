-- ===== src/Network/Node.antt =====
-- What moves a node: the events of its sockets (`handle_remote_peer_selector_event` of
-- skepticoin/networking/local_peer.py, with `handle_message_received` of remote_peer.py) and the steps
-- of its two managers (skepticoin/networking/manager.py).
use skepticoin.Crypto.{Crypto}
use skepticoin.Datatypes.Wire.{transaction_wire}
use skepticoin.Network.Os.{Host, Os}
use skepticoin.Network.Blocks.{handle_data, handle_get_data}
use skepticoin.Network.Inventory.Exchange.{handle_get_blocks, handle_inventory}
use skepticoin.Network.Manager.{connect_all, disconnect, get_active_peers, sanity_check}
use skepticoin.Network.Messages.{
  Message, MessageHeader, data_message, get_blocks, get_data, get_peers, hello, inventory, peers,
}
use skepticoin.Network.Messages.Wire.{deserialize_message, deserialize_message_header}
use skepticoin.Network.Method.{
  Method, when, pure, raise, lift, gets, change, ask, get_peer, put_peer, ◌>>=◌, ◌>>◌,
}
use skepticoin.Network.Params.{empty_inventory_backoff, ibd_peer_timeout, max_ibd_peers}
use skepticoin.Network.Peers.{handle_get_peers, handle_hello, handle_peers, peer_step}
use skepticoin.Network.Pool.{ChainManager, get_get_blocks_message, should_actively_fetch_blocks}
use skepticoin.Network.Receiver.{Receiver, receive_round, with_bytes}
use skepticoin.Network.Sending.{handle_can_send, send_message}
use skepticoin.Network.State.{ConnectedPeer, Node, PeerKey}
use skepticoin.Prelude.{
  Bytes, List, Option, none, some, [], false, true, if◌then◌else◌, length, ℕ, Bool, ltb, map, not,
  zero, suc, ◌&&◌, ◌++◌, ◌+◌, ◌==◌, ◌||◌, ◌∷◌,
}
use skepticoin.Prelude.Result.{Result, err, ok, index_error, plain_exception, recursion}
use skepticoin.Network.Manager.{handle_incoming_connection, load_peers_from_list}
use skepticoin.Network.State.{incoming, new_connected_peer}
use skepticoin.CoinState.{CoinState}
use skepticoin.Network.Pool.{new_chain_manager}

-- What a reader reads from the bytes that are there.
unfoldable pub parsed : {A : Type 0} → Result (A × Bytes) → Result A
parsed (err e) = err e
parsed (ok (a, rest)) = ok a

unfoldable pub inventory_batch_handled : ConnectedPeer → Bool
inventory_batch_handled p = not p.waiting_for_inventory && length p.inventory_messages == 0

-- `random.choice(candidates)`
unfoldable pub pick : ℕ → List ℕ → Result ℕ
pick k [] = err index_error
pick zero (i ∷ is) = ok i
pick (suc k) (i ∷ is) = pick k is

module _ ⦃os : Os⦄ ⦃c : Crypto⦄ where
  unfoldable pub handle_after_hello : ℕ → MessageHeader → Message → Method (Unit {0})
  handle_after_hello i header (hello m) = handle_hello i header m
  handle_after_hello i header (get_blocks m) = handle_get_blocks i header m
  handle_after_hello i header (inventory items) = handle_inventory i header items
  handle_after_hello i header (get_data m) = handle_get_data i header m
  handle_after_hello i header (data_message m) = handle_data i header m
  handle_after_hello i header get_peers = handle_get_peers i header
  handle_after_hello i header (peers ps) = handle_peers i ps

  unfoldable pub is_hello : Message → Bool
  is_hello (hello m) = true
  is_hello _ = false

  unfoldable pub handle_message_received : ℕ → MessageHeader → Message → Method (Unit {0})
  handle_message_received i header message = do
    p ← get_peer i
    if is_hello message || p.hello_received
        then handle_after_hello i header message
        else raise plain_exception

  unfoldable pub handle_message_data : ℕ → Bytes → Method (Unit {0})
  handle_message_data i message_data = do
    read ← lift (deserialize_message_header message_data)
    message ← lift (parsed (deserialize_message read.1))
    handle_message_received i read.0 message

  unfoldable pub put_receiver : ℕ → Receiver → Method (Unit {0})
  put_receiver i r = do p ← get_peer i; put_peer i (record p { receiver = r })

  -- What the receiver gives in a round. A round that raises leaves a receiver that is used no more.
  unfoldable pub handle_given : ℕ → Option Bytes → Receiver → Method (Unit {0}) → Method (Unit {0})
  handle_given i none r next = put_receiver i r
  handle_given i (some message_data) r next = do
    handle_message_data i message_data
    put_receiver i r
    next

  -- `receive(b"")`, which calls itself after each message.
  unfoldable pub receive_from : ℕ → ℕ → Method (Unit {0})
  receive_from zero i = raise recursion
  receive_from (suc fuel) i = do
    p ← get_peer i
    given ← lift (receive_round p.receiver)
    handle_given i given.0 given.1 (receive_from fuel i)

  -- `handle_receive_data`; every round but the last takes a header of a message from the buffer.
  unfoldable pub handle_receive_data : ℕ → Bytes → Method (Unit {0})
  handle_receive_data i bytes = do
    p ← get_peer i
    put_receiver i (with_bytes p.receiver bytes)
    receive_from (length (with_bytes p.receiver bytes).buffer + 9) i

  -- What `sock.recv` gives is empty when the other side has closed the connection.
  unfoldable pub handle_readable : ℕ → Bytes → Method (Unit {0})
  handle_readable i [] = disconnect i
  handle_readable i (b ∷ bytes) = handle_receive_data i (b ∷ bytes)

  unfoldable pub answered : ℕ → Result (Unit {0}) × Node → Result (Unit {0}) × Node
  answered i (err e, n) = disconnect i n
  answered i (ok u, n) = (ok u, n)

  -- An exception of any kind is reason to disconnect.
  unfoldable pub or_disconnect : ℕ → Method (Unit {0}) → Method (Unit {0})
  or_disconnect i m n = answered i (m n)

  unfoldable pub handle_read : ℕ → Option (Result Bytes) → Method (Unit {0})
  handle_read i none = pure tt
  handle_read i (some received) = do bytes ← lift received; handle_readable i bytes

  -- `handle_remote_peer_selector_event`: what can be read, if anything, and whether can be written.
  unfoldable pub handle_remote_peer_selector_event :
      ℕ → Option (Result Bytes) → Bool → Method (Unit {0})
  handle_remote_peer_selector_event i readable writable =
      or_disconnect i (do handle_read i readable; when writable (handle_can_send i))

  unfoldable pub step_all : ℕ → List ℕ → Method (Unit {0})
  step_all current_time [] = pure tt
  step_all current_time (i ∷ is) = do peer_step current_time i; step_all current_time is

  -- `NetworkManager.step`
  unfoldable pub network_step : ℕ → Method (Unit {0})
  network_step current_time = do
    sanity_check
    n ← gets (λ n. n)
    connect_all current_time (map (λ e. e.1) n.disconnected_peers)
    n' ← gets (λ n. n)
    step_all current_time (map (λ e. e.1) n'.connected_peers)

  -- Those that did not lately say that they have nothing new.
  unfoldable pub ibd_candidates : (ℕ → ConnectedPeer) → ℕ → List ℕ → List ℕ
  ibd_candidates objects current_time [] = []
  ibd_candidates objects current_time (i ∷ is) =
      let rest = ibd_candidates objects current_time is in
      if ltb ((objects i).last_empty_inventory_response_at + empty_inventory_backoff) current_time
      then i ∷ rest
      else rest

  unfoldable pub still_fetching : (ℕ → ConnectedPeer) → ℕ → List (ℕ × ℕ) → List (ℕ × ℕ)
  still_fetching objects current_time [] = []
  still_fetching objects current_time ((timeout_at, i) ∷ fetching) =
      let rest = still_fetching objects current_time fetching in
      if ltb current_time timeout_at && not (inventory_batch_handled (objects i))
      then (timeout_at, i) ∷ rest
      else rest

  unfoldable pub set_fetching : List (ℕ × ℕ) → Method (Unit {0})
  set_fetching fetching = change (λ n. record n { actively_fetching_blocks_from_peers = fetching })

  unfoldable pub ask_for_blocks : ℕ → ℕ → Message → Method (Unit {0})
  ask_for_blocks current_time i message = do
    p ← get_peer i
    put_peer i (record p { waiting_for_inventory = true })
    fetching ← gets (λ n. n.actively_fetching_blocks_from_peers)
    set_fetching (fetching ++ ((current_time + ibd_peer_timeout, i) ∷ []))
    send_message i message none

  unfoldable pub fetch_from : ℕ → List ℕ → Method (Unit {0})
  fetch_from current_time candidates = do
    n ← gets (λ n. n)
    let fetching = still_fetching n.peer_objects current_time n.actively_fetching_blocks_from_peers
    set_fetching fetching
    when (not (ltb max_ibd_peers (length fetching))) (do
      message ← lift (get_get_blocks_message n.chain_manager)
      k ← ask (λ k. os.choice k (length candidates))
      i ← lift (pick k candidates)
      ask_for_blocks current_time i message)

  -- `ChainManager.step`
  unfoldable pub chain_step : ℕ → Method (Unit {0})
  chain_step current_time = do
    n ← gets (λ n. n)
    active ← lift (should_actively_fetch_blocks n.chain_manager current_time)
    let candidates = ibd_candidates n.peer_objects current_time (get_active_peers n)
    when (active && not (length candidates == 0)) (fetch_from current_time candidates)

-- What the selector and the clock bring, in the loop of `LocalPeer.run`.
pub data Event : Type 0 where
  managers_step : ℕ → Event
  connection : Host → ℕ → Event
  socket_event : ℕ → Option (Result Bytes) → Bool → Event

module _ ⦃os : Os⦄ ⦃c : Crypto⦄ where
  -- `step_managers` and `handle_selector_events`, a single event at a time.
  unfoldable pub handle_event : Event → Method (Unit {0})
  handle_event (managers_step current_time) = do network_step current_time; chain_step current_time
  handle_event (connection remote_host remote_port) =
      handle_incoming_connection remote_host remote_port
  handle_event (socket_event i readable writable) =
      handle_remote_peer_selector_event i readable writable

  -- The loop of `run`: an exception that comes this far ends it.
  unfoldable pub run : List Event → Method (Unit {0})
  run [] = pure tt
  run (e ∷ events) = do handle_event e; run events

  -- `LocalPeer.__init__`, with the peers of the disk and the state of the chain.
  unfoldable pub new_node : Option ℕ → ℕ → os.Selector → List PeerKey → ChainManager → Node
  new_node port nonce selector keys m = record {
    port = port;
    nonce = nonce;
    selector = selector;
    peer_objects =
        λ i. new_connected_peer (record { host = []; port = 0; direction = incoming }) none 0;
    my_addresses = [];
    connected_peers = [];
    disconnected_peers = load_peers_from_list keys;
    chain_manager = m;
    actively_fetching_blocks_from_peers = [];
    disk = [];
    sockets = 0;
    calls = 0;
  }

  -- A node that was started with a coin state and peers, after the events.
  unfoldable pub node_after :
      Option ℕ → ℕ → os.Selector → List PeerKey → CoinState → ℕ → List Event → Node
  node_after port nonce selector keys s now events =
      (run events (new_node port nonce selector keys (new_chain_manager s now))).1
