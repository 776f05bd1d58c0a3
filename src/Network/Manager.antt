-- ===== src/Network/Manager.antt =====
-- `NetworkManager` of skepticoin/networking/manager.py and `disconnect`, `handle_incoming_connection`
-- and `start_outgoing_connection` of skepticoin/networking/local_peer.py.
pub mod Retry
use skepticoin.Crypto
use skepticoin.Crypto.{Crypto}
use skepticoin.Network.Os
use skepticoin.Network.Os.{Host, Os}
use skepticoin.Network.State.{
  ConnectedPeer, Direction, DisconnectedPeer, Node, PeerKey, peer_key_eq, as_connected,
  as_disconnected, incoming, new_connected_peer, new_disconnected_peer, outgoing, direction_beq,
}
use skepticoin.Network.Messages.{DataMessage, Message, data_message}
use skepticoin.Network.Sending.{send_message}
use skepticoin.Network.Method.{
  Method, when, pure, raise, lift, gets, change, ask, quiet, get_peer, put_peer, on_selector,
  with_peer, ◌>>=◌, ◌>>◌,
}
use skepticoin.Network.Params.{
  max_connection_attempts, max_time_between_connection_attempts, time_to_second_connection_attempt,
}
use skepticoin.Prelude.{
  Bytes, List, Option, none, some, [], false, true, if◌then◌else◌, ℕ, Bool, leb, ltb, map, not,
  ◌&&◌, ◌*◌, ◌+◌, ◌-◌, ◌==◌, ◌^◌, ◌||◌, ◌∷◌,
}
use skepticoin.Prelude.Eq.{list_eq, nat_eq, ◌≟◌}
use skepticoin.Prelude.Map.{Map, contains, del_item, erase, get_item, insert}
use skepticoin.Prelude.Result.{
  Error, Result, err, ok, key_error, plain_exception, raise_if, value_error,
}
use skepticoin.Prelude.Map.{lookup}

unfoldable pub min : ℕ → ℕ → ℕ
min m n = if leb m n then m else n

unfoldable pub time_between : ℕ → ℕ
time_between ban_score =
    min (time_to_second_connection_attempt * 2 ^ ban_score) max_time_between_connection_attempts

-- A difference that is negative is not at least `time_between`, which is positive.
unfoldable pub is_time_to_connect : DisconnectedPeer → ℕ → Bool
is_time_to_connect d current_time =
    not (ltb max_connection_attempts d.ban_score) && elim d.last_connection_attempt [
      | none ↦ true
      | some last ↦ leb (time_between d.ban_score + last) current_time
    ]

unfoldable pub mem_address : Host → ℕ → List (Host × ℕ) → Bool
mem_address host port [] = false
mem_address host port ((h, p) ∷ addresses) =
    ((h ≟ host) && (p == port)) || mem_address host port addresses

-- `for key in self.connected_peers: if key in self.disconnected_peers`
unfoldable pub any_shared : Map PeerKey ℕ → Map PeerKey DisconnectedPeer → Bool
any_shared [] disconnected = false
any_shared ((k, i) ∷ connected) disconnected =
    contains k disconnected || any_shared connected disconnected

-- The dict that `load_peers_from_list` builds up.
unfoldable pub load_into :
    Map PeerKey DisconnectedPeer → List PeerKey → Map PeerKey DisconnectedPeer
load_into m [] = m
load_into m (k ∷ ks) = load_into (insert k (new_disconnected_peer k) m) ks

unfoldable pub load_peers_from_list : List PeerKey → Map PeerKey DisconnectedPeer
load_peers_from_list keys = load_into [] keys

module _ ⦃os : Os⦄ where
  unfoldable pub sanity_check : Method (Unit {0})
  sanity_check n = (raise_if (any_shared n.connected_peers n.disconnected_peers) plain_exception, n)

  -- `del self.connected_peers[key]`
  unfoldable pub drop_connected : PeerKey → Method (Unit {0})
  drop_connected k = do
    connected ← gets (λ n. n.connected_peers)
    rest ← lift (del_item k connected)
    change (λ n. record n { connected_peers = rest })

  unfoldable pub add_disconnected : PeerKey → DisconnectedPeer → Method (Unit {0})
  add_disconnected k d =
      change (λ n. record n { disconnected_peers = insert k d n.disconnected_peers })

  -- The score of a peer that is lost before it said hello.
  unfoldable pub count_ban : ℕ → Method (Unit {0})
  count_ban i = do
    p ← get_peer i
    when (not p.hello_received) (put_peer i (record p { ban_score = p.ban_score + 1 }))

  unfoldable pub move_disconnected : ℕ → PeerKey → Method (Unit {0})
  move_disconnected i k = do count_ban i; p ← get_peer i; add_disconnected k (as_disconnected p)

  unfoldable pub handle_peer_disconnected : ℕ → Method (Unit {0})
  handle_peer_disconnected i = do
    p ← get_peer i
    sanity_check
    drop_connected p.key
    when (direction_beq p.key.direction outgoing) (move_disconnected i p.key)
    sanity_check

  -- `LocalPeer.disconnect`: any exception is logged, and no more.
  unfoldable pub disconnect : ℕ → Method (Unit {0})
  disconnect i = quiet (do on_selector (os.unregister i); handle_peer_disconnected i)

  unfoldable pub drop_duplicate : Option ℕ → Method (Unit {0})
  drop_duplicate none = pure tt
  drop_duplicate (some i) = disconnect i

  -- `self.connected_peers[key] = remote_peer`, and the key leaves the disconnected peers.
  unfoldable pub add_connected : PeerKey → ℕ → Method (Unit {0})
  add_connected k i = change (λ n. record n {
    connected_peers = insert k i n.connected_peers;
    disconnected_peers = erase k n.disconnected_peers;
  })

  unfoldable pub handle_peer_connected : ℕ → Method (Unit {0})
  handle_peer_connected i = do
    p ← get_peer i
    connected ← gets (λ n. n.connected_peers)
    drop_duplicate (lookup p.key connected)
    sanity_check
    add_connected p.key i
    sanity_check

  -- A new object, with a socket of its own.
  unfoldable pub open_peer : ConnectedPeer → Method ℕ
  open_peer p n = (ok n.sockets, with_peer n.sockets p (record n { sockets = n.sockets + 1 }))

  unfoldable pub register_peer : ConnectedPeer → Method (Unit {0})
  register_peer p = do i ← open_peer p; on_selector (os.register i); handle_peer_connected i

  -- `handle_incoming_connection`, with what `getpeername` answers.
  unfoldable pub handle_incoming_connection : Host → ℕ → Method (Unit {0})
  handle_incoming_connection remote_host remote_port = register_peer (
      new_connected_peer (record { host = remote_host; port = remote_port; direction = incoming })
        none 0)

  -- MAX_SELECTOR_SIZE_BY_PLATFORM
  unfoldable pub max_selector_map_size : ℕ
  max_selector_map_size =
      if os.platform ≟ (b'w' ∷ b'i' ∷ b'n' ∷ b'3' ∷ b'2' ∷ [])
      then 64
      else if os.platform ≟ (b'l' ∷ b'i' ∷ b'n' ∷ b'u' ∷ b'x' ∷ [])
      then 512
      else 64

  unfoldable pub start_outgoing_connection : DisconnectedPeer → Method (Unit {0})
  start_outgoing_connection d = do
    size ← gets (λ n. os.map_size n.selector)
    when (ltb size max_selector_map_size) (register_peer (as_connected d))

  -- An attempt is noted in the object that the map holds.
  unfoldable pub connect_to : ℕ → DisconnectedPeer → Method (Unit {0})
  connect_to current_time d = do
    let d' = record d { last_connection_attempt = some current_time }
    change (λ n. record n {
      disconnected_peers =
          if contains d.key n.disconnected_peers
          then insert d.key d' n.disconnected_peers
          else n.disconnected_peers;
    })
    start_outgoing_connection d'

  unfoldable pub connect_all : ℕ → List DisconnectedPeer → Method (Unit {0})
  connect_all current_time [] = pure tt
  connect_all current_time (d ∷ ds) = do
    mine ← gets (λ n. mem_address d.key.host d.key.port n.my_addresses)
    when (direction_beq d.key.direction outgoing && not mine && is_time_to_connect d current_time)
        (connect_to current_time d)
    connect_all current_time ds

  unfoldable pub select_active : (ℕ → ConnectedPeer) → List (PeerKey × ℕ) → List ℕ
  select_active objects [] = []
  select_active objects ((k, i) ∷ connected) =
      let rest = select_active objects connected in
      if (objects i).hello_sent && (objects i).hello_received then i ∷ rest else rest

  unfoldable pub get_active_peers : Node → List ℕ
  get_active_peers n = select_active n.peer_objects n.connected_peers
