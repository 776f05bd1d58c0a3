-- ===== src/Network/Peers.antt =====
-- The handlers of `ConnectedRemotePeer` in skepticoin/networking/remote_peer.py by which nodes meet
-- and tell each other of further nodes, and the step that starts it.
pub mod Scores
use skepticoin.Crypto
use skepticoin.Crypto.{Crypto}
use skepticoin.Network.Os
use skepticoin.Network.Os.{Host, Os}
use skepticoin.Network.State.{
  ConnectedPeer, Direction, DisconnectedPeer, Node, PeerKey, peer_key_eq, direction_beq, incoming,
  new_disconnected_peer, outgoing, write_peers,
}
use skepticoin.Network.Messages.{
  HelloMessage, Message, MessageHeader, Peer, get_peers, hello, peers,
}
use skepticoin.Network.Sending.{send_message}
use skepticoin.Network.Manager.{add_disconnected, disconnect, mem_address, sanity_check}
use skepticoin.Network.Method.{
  Method, when, pure, raise, lift, gets, change, ask, call_disk, get_peer, put_peer, ◌>>=◌, ◌>>◌,
}
use skepticoin.Network.Params.{get_peers_interval, max_connection_attempts}
use skepticoin.Prelude.{
  Bytes, List, Option, none, some, [], false, true, if◌then◌else◌, ℕ, Bool, ltb, not, replicate,
  take, ◌&&◌, ◌++◌, ◌+◌, ◌==◌, ◌||◌, ◌∷◌,
}
use skepticoin.Prelude.Map.{Map, contains}
use skepticoin.Prelude.Result.{Result}
use skepticoin.Prelude.Eq.{list_eq, nat_eq}

-- b"sashimi "
abbrev pub sashimi : Bytes
sashimi = b's' ∷ b'a' ∷ b's' ∷ b'h' ∷ b'i' ∷ b'm' ∷ b'i' ∷ b' ' ∷ []

-- `self.local_peer.port if self.local_peer.port else 0`
unfoldable pub port_or_0 : Option ℕ → ℕ
port_or_0 none = 0
port_or_0 (some p) = p

unfoldable pub is_due : Option ℕ → ℕ → Bool
is_due none current_time = true
is_due (some last) current_time = ltb (last + get_peers_interval) current_time

-- A peer that is told of: one that can be connected to and has not failed too often.
unfoldable pub is_good : PeerKey → ℕ → Bool
is_good k ban_score = direction_beq k.direction outgoing && ltb ban_score max_connection_attempts

module _ ⦃os : Os⦄ where
  -- A peer that is new is put among the disconnected ones.
  unfoldable pub learn_peer : PeerKey → Method (Unit {0})
  learn_peer k = do
    sanity_check
    n ← gets (λ n. n)
    when (not (contains k n.disconnected_peers) && not (contains k n.connected_peers))
        (add_disconnected k (new_disconnected_peer k))
    sanity_check

module _ ⦃os : Os⦄ ⦃c : Crypto⦄ where
  unfoldable pub say_hello : ℕ → Method (Unit {0})
  say_hello i = do
    p ← get_peer i
    n ← gets (λ n. n)
    your_ip_address ← lift (os.ipv6_mapped p.key.host)
    put_peer i (record p { hello_sent = true })
    send_message i
        (hello (record {
          supported_versions = record { version = 0 } ∷ [];
          your_ip_address = your_ip_address;
          your_port = p.key.port;
          my_ip_address = replicate 16 0;
          my_port = port_or_0 n.port;
          nonce = n.nonce;
          user_agent = sashimi ++ os.version;
        }))
        none

  unfoldable pub ask_for_peers : ℕ → ℕ → Method (Unit {0})
  ask_for_peers i current_time = do
    send_message i get_peers none
    p ← get_peer i
    put_peer i (record p { waiting_for_peers = true; last_get_peers_sent_at = some current_time })

  -- `ConnectedRemotePeer.step`
  unfoldable pub peer_step : ℕ → ℕ → Method (Unit {0})
  peer_step current_time i = do
    p ← get_peer i
    when (not p.hello_sent) (say_hello i)
    q ← get_peer i
    when
        (q.hello_received
          && is_due q.last_get_peers_sent_at current_time
          && not q.waiting_for_peers)
        (ask_for_peers i current_time)

  -- An incoming peer may be reached the other way, at the port that it names.
  unfoldable pub learn_of : ConnectedPeer → HelloMessage → Method (Unit {0})
  learn_of p message =
      when (direction_beq p.key.direction incoming)
        (learn_peer (record { host = p.key.host; port = message.my_port; direction = outgoing }))

  unfoldable pub drop_self : ℕ → ConnectedPeer → Method (Unit {0})
  drop_self i p = do
    change (λ n. record n {
      my_addresses =
          if mem_address p.key.host p.key.port n.my_addresses
          then n.my_addresses
          else (p.key.host, p.key.port) ∷ n.my_addresses;
    })
    disconnect i

  unfoldable pub handle_hello : ℕ → MessageHeader → HelloMessage → Method (Unit {0})
  handle_hello i header message = do
    p ← get_peer i
    put_peer i (record p { hello_received = true; ban_score = 0 })
    learn_of p message
    when (direction_beq p.key.direction outgoing) (call_disk (write_peers p.key))
    nonce ← gets (λ n. n.nonce)
    when (direction_beq p.key.direction outgoing && message.nonce == nonce) (drop_self i p)

  unfoldable pub connected_entry : ConnectedPeer → Method Peer
  connected_entry p = do
    now ← ask os.clock
    address ← lift (os.ipv6_mapped p.key.host)
    pure (record { last_seen_at = now; ip_address = address; port = p.key.port })

  unfoldable pub connected_entries : List (PeerKey × ℕ) → Method (List Peer)
  connected_entries [] = pure []
  connected_entries ((k, i) ∷ connected) = do
    p ← get_peer i
    entry ← if is_good p.key p.ban_score then (do e ← connected_entry p; pure (e ∷ [])) else pure []
    entries ← connected_entries connected
    pure (entry ++ entries)

  unfoldable pub disconnected_entry : DisconnectedPeer → Method Peer
  disconnected_entry d = do
    address ← lift (os.ipv6_mapped d.key.host)
    pure (record { last_seen_at = 0; ip_address = address; port = d.key.port })

  unfoldable pub disconnected_entries : List (PeerKey × DisconnectedPeer) → Method (List Peer)
  disconnected_entries [] = pure []
  disconnected_entries ((k, d) ∷ disconnected) = do
    entry ←
        if is_good d.key d.ban_score then (do e ← disconnected_entry d; pure (e ∷ [])) else pure []
    entries ← disconnected_entries disconnected
    pure (entry ++ entries)

  unfoldable pub handle_get_peers : ℕ → MessageHeader → Method (Unit {0})
  handle_get_peers i header = do
    n ← gets (λ n. n)
    connected ← connected_entries n.connected_peers
    disconnected ← disconnected_entries n.disconnected_peers
    send_message i (peers (take 1000 (connected ++ disconnected))) (some header)

  -- An address that is no mapped IPv4 address is passed over.
  unfoldable pub learn_host : Option Host → ℕ → Method (Unit {0})
  learn_host none port = pure tt
  learn_host (some host) port =
      learn_peer (record { host = host; port = port; direction = outgoing })

  unfoldable pub learn_all : List Peer → Method (Unit {0})
  learn_all [] = pure tt
  learn_all (p ∷ ps) = do learn_host (os.ipv4_mapped p.ip_address) p.port; learn_all ps

  unfoldable pub handle_peers : ℕ → List Peer → Method (Unit {0})
  handle_peers i announced = do
    p ← get_peer i
    put_peer i (record p { waiting_for_peers = false })
    learn_all announced
