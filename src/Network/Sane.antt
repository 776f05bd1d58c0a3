-- ===== src/Network/Sane.antt =====
-- No peer of a node of skepticoin/networking is both connected and disconnected: the condition, and
-- the methods that have no part in it.
pub mod Broadcast
pub mod Maps
pub mod Peers
pub mod Handlers
pub mod Steps
pub mod Events
pub mod Run
use skepticoin.Crypto
use skepticoin.Crypto.{Crypto}
use skepticoin.Network.Os
use skepticoin.Network.Os.{Os}
use skepticoin.Network.State.{ConnectedPeer, DisconnectedPeer, Node, PeerKey, peer_key_eq}
use skepticoin.Network.Method.{Method}
use skepticoin.Prelude.Map.{Map}
use skepticoin.Network.Keeps.{
  Keeps, Keeps-bind, Keeps-change, Keeps-gets, Keeps-lift, Keeps-pure, Keeps-when,
}
use skepticoin.Network.Messages.{Message, MessageHeader}
use skepticoin.Network.Method.{ask, call_disk, get_peer, on_selector, put_peer, with_selector}
use skepticoin.Network.Pool.{ChainManager}
use skepticoin.Network.Sending.{
  enqueue, get_msg_id, new_header, next_buffer, reply_to, send_message, start_sending,
}
use skepticoin.Network.State.{DiskCall}
use skepticoin.Prelude.{Option, none, true, ℕ, ◌≡◌}
use skepticoin.Prelude.Eq.{list_eq, nat_eq}
use skepticoin.Prelude.Map.{IsUnique, contains, lookup}
use skepticoin.Prelude.Result.{Result, err, ok}
use skepticoin.Prelude.{Bytes, some}

pub record IsSane (connected : Map PeerKey ℕ) (disconnected : Map PeerKey DisconnectedPeer)
    : Type 0 where
  pub connected_unique : IsUnique connected
  pub disconnected_unique : IsUnique disconnected
  pub apart :
      (k : PeerKey) {d : DisconnectedPeer}
      → lookup k disconnected ≡ some d
      → lookup k connected ≡ none

-- A condition on the peers and a condition on the chain manager.
module _ ⦃os : Os⦄ (S : Map PeerKey ℕ → Map PeerKey DisconnectedPeer → Type 0)
    (Q : ChainManager → Type 0) where
  pub record IsGood (n : Node) : Type 0 where
    pub sane : S n.connected_peers n.disconnected_peers
    pub chain : Q n.chain_manager

  pub ask-IsGood : {A : Type 0} (f : ℕ → A) → Keeps IsGood (ask f)
  unfolding ask
  ask-IsGood f = record { kept = λ n p. record { sane = p.sane; chain = p.chain } }

  pub put_peer-IsGood : (i : ℕ) (p : ConnectedPeer) → Keeps IsGood (put_peer i p)
  unfolding put_peer
  put_peer-IsGood i p = Keeps-change IsGood _ (λ n g. record { sane = g.sane; chain = g.chain })

  pub get_peer-IsGood : (i : ℕ) → Keeps IsGood (get_peer i)
  unfolding get_peer
  get_peer-IsGood i = Keeps-gets IsGood _

  with_selector-IsGood :
      (n : Node) (r : Result os.Selector) → IsGood n → IsGood (with_selector n r).1
  with_selector-IsGood n (err e) g = g
  with_selector-IsGood n (ok s) g = record { sane = g.sane; chain = g.chain }

  pub on_selector-IsGood : (f : os.Selector → Result os.Selector) → Keeps IsGood (on_selector f)
  unfolding on_selector
  on_selector-IsGood f = record { kept = λ n g. with_selector-IsGood n (f n.selector) g }

  pub call_disk-IsGood : (d : DiskCall) → Keeps IsGood (call_disk d)
  unfolding call_disk
  call_disk-IsGood d = Keeps-change IsGood _ (λ n g. record { sane = g.sane; chain = g.chain })

  reply_to-IsGood : (h : Option MessageHeader) → Keeps IsGood (reply_to h)
  unfolding reply_to
  reply_to-IsGood none = search (Keeps-bind, Keeps-pure, ask-IsGood)
  reply_to-IsGood (some h) = Keeps-pure IsGood _

  get_msg_id-IsGood : (i : ℕ) → Keeps IsGood (get_msg_id i)
  unfolding get_msg_id
  get_msg_id-IsGood i = search (Keeps-bind, Keeps-pure, get_peer-IsGood, put_peer-IsGood)

  new_header-IsGood : (i : ℕ) (h : Option MessageHeader) → Keeps IsGood (new_header i h)
  unfolding new_header
  new_header-IsGood i h =
      search (Keeps-bind, Keeps-pure, ask-IsGood, reply_to-IsGood, get_msg_id-IsGood)

  next_buffer-IsGood : (i : ℕ) → Keeps IsGood (next_buffer i)
  unfolding next_buffer
  next_buffer-IsGood i = search (Keeps-bind, Keeps-lift, get_peer-IsGood, put_peer-IsGood)

  start_sending-IsGood : (i : ℕ) → Keeps IsGood (start_sending i)
  unfolding start_sending
  start_sending-IsGood i = on_selector-IsGood _

  enqueue-IsGood : (i : ℕ) (b : Bytes) → Keeps IsGood (enqueue i b)
  unfolding enqueue
  enqueue-IsGood i b = search (
    Keeps-bind, Keeps-when, get_peer-IsGood, put_peer-IsGood, next_buffer-IsGood,
    start_sending-IsGood,
  )

  pub send_message-IsGood :
      ⦃c : Crypto⦄ (i : ℕ) (m : Message) (h : Option MessageHeader)
      → Keeps IsGood (send_message i m h)
  unfolding send_message
  send_message-IsGood i m h = search (Keeps-bind, Keeps-lift, new_header-IsGood, enqueue-IsGood)
