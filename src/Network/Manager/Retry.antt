-- ===== src/Network/Manager/Retry.antt =====
-- When a lost peer is tried again: `is_time_to_connect` of skepticoin/networking/remote_peer.py in the
-- loop of `NetworkManager.step`, with `start_outgoing_connection` of local_peer.py.
use skepticoin.Network.Os.{Os}
use skepticoin.Network.Manager.{
  add_connected, any_shared, connect_all, connect_to, direction_beq, drop_duplicate,
  handle_peer_connected, is_time_to_connect, max_selector_map_size, mem_address, min, open_peer,
  register_peer, sanity_check, start_outgoing_connection, time_between,
}
use skepticoin.Network.Method.{change, get_peer, gets, on_selector, pure, when, with_peer, ◌>>=◌}
use skepticoin.Network.Params.{max_connection_attempts, max_time_between_connection_attempts}
use skepticoin.Network.Sane.{IsSane}
use skepticoin.Network.Sane.Maps.{any_shared_lem, insert_connected, insert_disconnected}
use skepticoin.Network.State.{
  ConnectedPeer, DisconnectedPeer, Node, PeerKey, as_connected, direction_beq, new_connected_peer,
  outgoing, peer_key_eq,
}
use skepticoin.Prelude.{
  Bool, List, arith, false, if◌then◌else◌, ltb, none, not, refl, some, true, ◌&&◌, ◌+◌, ◌<◌, ◌∷◌,
  ◌≡◌, ◌≤◌, ℕ,
}
use skepticoin.Prelude.Eq.{list_eq, nat_eq, ≟_refl}
use skepticoin.Prelude.Map.{Map, contains, erase, insert, lookup}
use skepticoin.Prelude.Map.Laws.{lookup-erase_self, lookup-insert_self}
use skepticoin.Prelude.Result.{ok}

time_between-bound : (k : ℕ) → time_between k ≤ max_time_between_connection_attempts
unfolding time_between min
time_between-bound k = ground arith

is_time_to_connect_again :
    (d : DisconnectedPeer) (last current_time : ℕ)
    → d.last_connection_attempt ≡ some last
    → d.ban_score ≤ max_connection_attempts
    → last + max_time_between_connection_attempts ≤ current_time
    → is_time_to_connect d current_time ≡ true
unfolding is_time_to_connect
is_time_to_connect_again d last current_time e few late =
    ground (arith, time_between-bound d.ban_score)

passes_guard :
    (d : DisconnectedPeer) (t : ℕ) (mine : Bool)
    → d.key.direction ≡ outgoing
    → mine ≡ false
    → is_time_to_connect d t ≡ true
    → (direction_beq d.key.direction outgoing && not mine && is_time_to_connect d t) ≡ true
unfolding direction_beq
passes_guard d t mine out other late = rw (late, other) (ground arith)

unshared :
    {connected : Map PeerKey ℕ} {disconnected : Map PeerKey DisconnectedPeer}
    → IsSane connected disconnected
    → any_shared connected disconnected ≡ false
unshared {connected} {disconnected} s =
    any_shared_lem connected disconnected s.connected_unique (λ k d h. s.apart k h)

module _ ⦃os : Os⦄ where
  -- The node with a new connected peer.
  abbrev with_connected : ConnectedPeer → os.Selector → Node → Node
  with_connected p selector n = record (with_peer n.sockets p n) {
    sockets = n.sockets + 1;
    selector = selector;
    connected_peers = insert p.key n.sockets n.connected_peers;
    disconnected_peers = erase p.key n.disconnected_peers;
  }

  own_object : (p : ConnectedPeer) (n : Node) → (with_peer n.sockets p n).peer_objects n.sockets ≡ p
  own_object p n = ground (arith, ≟_refl n.sockets)

  register_peer_ok :
      (p : ConnectedPeer) (n : Node) (selector : os.Selector)
      → os.register n.sockets n.selector ≡ ok selector
      → lookup p.key n.connected_peers ≡ none
      → IsSane n.connected_peers n.disconnected_peers
      → register_peer p n ≡ (ok tt, with_connected p selector n)
  unfolding register_peer ◌>>=◌ open_peer on_selector handle_peer_connected get_peer gets
      drop_duplicate pure sanity_check add_connected change
  register_peer_ok p n selector r free s =
      rw (r, own_object p n, free, unshared s, unshared (insert_connected p.key n.sockets s)) refl

  -- The node with the attempt noted.
  abbrev with_attempt : DisconnectedPeer → Node → Node
  with_attempt d n = record n {
    disconnected_peers =
        if contains d.key n.disconnected_peers
        then insert d.key d n.disconnected_peers
        else n.disconnected_peers;
  }

  noted :
      (b : Bool) (d : DisconnectedPeer) (n : Node)
      → lookup d.key n.connected_peers ≡ none
      → IsSane n.connected_peers n.disconnected_peers
      → IsSane n.connected_peers
          (if b then insert d.key d n.disconnected_peers else n.disconnected_peers)
  noted true d n free s = insert_disconnected d.key d free s
  noted false d n free s = s

  connect_to_ok :
      (t : ℕ) (d : DisconnectedPeer) (n : Node) (selector : os.Selector)
      → ltb (os.map_size n.selector) max_selector_map_size ≡ true
      → os.register n.sockets n.selector ≡ ok selector
      → lookup d.key n.connected_peers ≡ none
      → IsSane n.connected_peers n.disconnected_peers
      → connect_to t d n ≡ (
        ok tt,
        with_connected
            (new_connected_peer d.key (some t) d.ban_score)
            selector
            (with_attempt (record d { last_connection_attempt = some t }) n),
      )
  unfolding connect_to start_outgoing_connection ◌>>=◌ change gets when as_connected
      new_connected_peer
  connect_to_ok t d n selector room r free s =
      (let d' = record d { last_connection_attempt = some t } in
        rw room (
          register_peer_ok (new_connected_peer d.key (some t) d.ban_score) (with_attempt d' n)
            selector r free (noted (contains d.key n.disconnected_peers) d' n free s)))

  -- When the loop of `NetworkManager.step` comes to an outgoing peer that was lost, that failed up to
  -- MAX_CONNECTION_ATTEMPTS times, and whose last attempt was at least
  -- MAX_TIME_BETWEEN_CONNECTION_ATTEMPTS seconds ago, a connection is attempted: if the address is not
  -- the node's own, the selector has room and registers the socket, and no peer is connected under the
  -- key nor both connected and disconnected, then the loop goes on from a node in which a new object
  -- with the peer's score and this time as its last attempt is the connected peer under the key, which
  -- is no longer disconnected.
  pub connect_all_again :
      (d : DisconnectedPeer) (ds : List DisconnectedPeer) (last current_time : ℕ) (n : Node)
      (selector : os.Selector)
      → d.key.direction ≡ outgoing
      → mem_address d.key.host d.key.port n.my_addresses ≡ false
      → d.last_connection_attempt ≡ some last
      → d.ban_score ≤ max_connection_attempts
      → last + max_time_between_connection_attempts ≤ current_time
      → os.map_size n.selector < max_selector_map_size
      → os.register n.sockets n.selector ≡ ok selector
      → lookup d.key n.connected_peers ≡ none
      → IsSane n.connected_peers n.disconnected_peers
      → (n' : Node) × (connect_all current_time (d ∷ ds) n ≡ connect_all current_time ds n')
        × (lookup d.key n'.connected_peers ≡ some n.sockets)
        × (lookup d.key n'.disconnected_peers ≡ none)
        × (n'.peer_objects n.sockets ≡ new_connected_peer d.key (some current_time) d.ban_score)
  unfolding connect_all ◌>>=◌ gets when new_connected_peer
  connect_all_again d ds last current_time n selector out other e few late room r free s =
      (let d' = record d { last_connection_attempt = some current_time } in
        let p = new_connected_peer d.key (some current_time) d.ban_score in
        let n1 = with_attempt d' n in
        let sane = noted (contains d.key n.disconnected_peers) d' n free s in
        (
          with_connected p selector n1,
          rw
              (
                passes_guard d current_time _ out other
                    (is_time_to_connect_again d last current_time e few late),
                connect_to_ok current_time d n selector (ground arith) r free s,
              )
              refl,
          lookup-insert_self d.key n.sockets n.connected_peers,
          lookup-erase_self d.key n1.disconnected_peers sane.disconnected_unique,
          own_object p n1,
        ))
