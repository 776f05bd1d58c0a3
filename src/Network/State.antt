-- ===== src/Network/State.antt =====
-- The objects of skepticoin/networking/remote_peer.py, local_peer.py and manager.py, and the state of
-- a node that holds them. A connected peer is an object that several places refer to: it lives in a
-- store, under the number of its socket.
use skepticoin.Network.Os.{Host, Os}
use skepticoin.Datatypes.{Block, Transaction}
use skepticoin.Network.Messages.{InventoryItem, MessageHeader}
use skepticoin.Network.Pool.{ChainManager}
use skepticoin.Network.Receiver.{Receiver, new_receiver}
use skepticoin.Prelude.{
  Bool, Bytes, List, Option, [], arith, false, none, true, ℕ, ◌&&◌, ◌==◌, ◌↔◌, ◌≡◌, ==_iff,
}
use skepticoin.Prelude.Eq.{Eq, list_eq, nat_eq, ≟_iff, ◌≟◌}
use skepticoin.Prelude.Map.{Map}

-- INCOMING, OUTGOING
pub data Direction : Type 0 where
  incoming outgoing : Direction

unfoldable pub direction_beq : Direction → Direction → Bool
direction_beq incoming incoming = true
direction_beq outgoing outgoing = true
direction_beq _ _ = false

direction_beq_iff : (a b : Direction) → (direction_beq a b ≡ true) ↔ (a ≡ b)
unfolding direction_beq
direction_beq_iff incoming incoming = ground arith
direction_beq_iff outgoing outgoing = ground arith
direction_beq_iff incoming outgoing = ((λ e. cc), (λ e. cc))
direction_beq_iff outgoing incoming = ((λ e. cc), (λ e. cc))

-- The tuple (host, port, direction).
pub record PeerKey : Type 0 where
  pub host : Host
  pub port : ℕ
  pub direction : Direction

unfoldable pub peer_key_beq : PeerKey → PeerKey → Bool
peer_key_beq a b = (a.host ≟ b.host) && (a.port == b.port) && direction_beq a.direction b.direction

pub peer_key_beq_iff : (a b : PeerKey) → (peer_key_beq a b ≡ true) ↔ (a ≡ b)
unfolding peer_key_beq
peer_key_beq_iff a b =
    ground
      (arith, ≟_iff a.host b.host, ==_iff a.port b.port, direction_beq_iff a.direction b.direction)

instance abbrev pub peer_key_eq : Eq PeerKey
peer_key_eq = record { test = peer_key_beq; exact = peer_key_beq_iff }

pub record DisconnectedPeer : Type 0 where
  pub key : PeerKey
  pub last_connection_attempt : Option ℕ
  pub ban_score : ℕ

-- `InventoryMessageState`: the header and the items of the message.
pub record InventoryMessageState : Type 0 where
  pub header : MessageHeader
  pub items : List InventoryItem
  pub index : ℕ
  pub actually_used : Bool

-- `written` is what the peer's socket has taken to be sent.
pub record ConnectedPeer : Type 0 where
  pub key : PeerKey
  pub last_connection_attempt : Option ℕ
  pub ban_score : ℕ
  pub receiver : Receiver
  pub send_backlog : List Bytes
  pub send_buffer : Bytes
  pub written : Bytes
  pub hello_sent : Bool
  pub hello_received : Bool
  pub waiting_for_inventory : Bool
  pub last_empty_inventory_response_at : ℕ
  pub inventory_messages : List InventoryMessageState
  pub next_msg_id : ℕ
  pub last_get_peers_sent_at : Option ℕ
  pub waiting_for_peers : Bool

-- `ConnectedRemotePeer.__init__`
unfoldable pub new_connected_peer : PeerKey → Option ℕ → ℕ → ConnectedPeer
new_connected_peer key last_connection_attempt ban_score = record {
  key = key;
  last_connection_attempt = last_connection_attempt;
  ban_score = ban_score;
  receiver = new_receiver;
  send_backlog = [];
  send_buffer = [];
  written = [];
  hello_sent = false;
  hello_received = false;
  waiting_for_inventory = false;
  last_empty_inventory_response_at = 0;
  inventory_messages = [];
  next_msg_id = 0;
  last_get_peers_sent_at = none;
  waiting_for_peers = false;
}

unfoldable pub as_connected : DisconnectedPeer → ConnectedPeer
as_connected d = new_connected_peer d.key d.last_connection_attempt d.ban_score

unfoldable pub as_disconnected : ConnectedPeer → DisconnectedPeer
as_disconnected p = record {
  key = p.key;
  last_connection_attempt = p.last_connection_attempt;
  ban_score = p.ban_score;
}

-- A new `DisconnectedRemotePeer` that was never tried.
unfoldable pub new_disconnected_peer : PeerKey → DisconnectedPeer
new_disconnected_peer key = record { key = key; last_connection_attempt = none; ban_score = 0 }

-- The calls of the disk interface and the block store.
pub data DiskCall : Type 0 where
  write_peers : PeerKey → DiskCall
  save_block : Block → DiskCall
  flush_blocks : DiskCall
  clear_write_buffer : DiskCall
  save_transaction_for_debugging : Transaction → DiskCall

-- `LocalPeer` and its two managers. `sockets` and `calls` count the sockets that were opened and the
-- questions that were put to the operating system.
pub record Node ⦃os : Os⦄ : Type 0 where
  pub port : Option ℕ
  pub nonce : ℕ
  pub selector : os.Selector
  pub peer_objects : ℕ → ConnectedPeer
  pub my_addresses : List (Host × ℕ)
  pub connected_peers : Map PeerKey ℕ
  pub disconnected_peers : Map PeerKey DisconnectedPeer
  pub chain_manager : ChainManager
  pub actively_fetching_blocks_from_peers : List (ℕ × ℕ)
  pub disk : List DiskCall
  pub sockets : ℕ
  pub calls : ℕ
