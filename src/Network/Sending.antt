-- ===== src/Network/Sending.antt =====
-- `send_message`, `start_sending`, `stop_sending`, `_get_msg_id` and `handle_can_send` of
-- `ConnectedRemotePeer` in skepticoin/networking/remote_peer.py.
pub mod Queue
pub mod Link
use skepticoin.Crypto
use skepticoin.Crypto.{Crypto}
use skepticoin.Network.Os
use skepticoin.Network.Os.{Os}
use skepticoin.Network.State.{ConnectedPeer, Node}
use skepticoin.Network.Messages.{Message, MessageHeader}
use skepticoin.Network.Messages.Wire.{serialize_message, serialize_message_header}
use skepticoin.Network.Receiver.Frames.{frame}
use skepticoin.Network.Method.{
  Method, when, pure, raise, lift, gets, change, ask, get_peer, put_peer, on_selector, ◌>>=◌, ◌>>◌,
}
use skepticoin.Prelude.{
  Bytes, List, Option, none, some, [], drop, take, false, true, if◌then◌else◌, length, ℕ, Bool,
  ◌++◌, ◌+◌, ◌==◌, ◌∷◌,
}
use skepticoin.Prelude.Result.{Error, Result, err, ok, index_error, value_error, ◌then_write◌}

-- Only a ValueError is caught.
unfoldable pub caught_value_error : {A : Type 0} → A → Result A → Result A
caught_value_error a (ok b) = ok b
caught_value_error a (err value_error) = ok a
caught_value_error a (err e) = err e

-- The data of a message, in its frame.
unfoldable pub frame_data : Result Bytes → Result Bytes
frame_data (err e) = err e
frame_data (ok data') = frame data'

-- `list.pop(0)`
unfoldable pub pop_first : {A : Type 0} → List A → Result (A × List A)
pop_first [] = err index_error
pop_first (x ∷ xs) = ok (x, xs)

module _ ⦃os : Os⦄ where
  -- The id of the message that is answered, and its context.
  unfoldable pub reply_to : Option MessageHeader → Method (ℕ × ℕ)
  reply_to none = do context ← ask os.random_context; pure (0, context)
  reply_to (some h) = pure (h.id, h.context)

  unfoldable pub get_msg_id : ℕ → Method ℕ
  get_msg_id i = do
    p ← get_peer i
    put_peer i (record p { next_msg_id = p.next_msg_id + 1 })
    pure (p.next_msg_id + 1)

  unfoldable pub start_sending : ℕ → Method (Unit {0})
  start_sending i = on_selector (λ s. caught_value_error s (os.modify i true s))

  unfoldable pub stop_sending : ℕ → Method (Unit {0})
  stop_sending i = on_selector (os.modify i false)

  -- `self.send_buffer = self.send_backlog.pop(0)`
  unfoldable pub next_buffer : ℕ → Method (Unit {0})
  next_buffer i = do
    p ← get_peer i
    popped ← lift (pop_first p.send_backlog)
    put_peer i (record p { send_buffer = popped.0; send_backlog = popped.1 })

  -- `self.send_backlog.append(...)`, and what follows.
  unfoldable pub enqueue : ℕ → Bytes → Method (Unit {0})
  enqueue i framed = do
    p ← get_peer i
    put_peer i (record p { send_backlog = p.send_backlog ++ (framed ∷ []) })
    when (length p.send_buffer == 0) (do next_buffer i; start_sending i)

  unfoldable pub new_header : ℕ → Option MessageHeader → Method MessageHeader
  new_header i prev_header = do
    reply ← reply_to prev_header
    timestamp ← ask os.clock
    id ← get_msg_id i
    pure (record { timestamp = timestamp; id = id; in_response_to = reply.0; context = reply.1 })

  unfoldable pub send_message :
      ⦃c : Crypto⦄ → ℕ → Message → Option MessageHeader → Method (Unit {0})
  send_message i message prev_header = do
    header ← new_header i prev_header
    framed ←
        lift (frame_data (serialize_message_header header then_write serialize_message message))
    enqueue i framed

  -- `sent = sock.send(self.send_buffer)`, and the buffer cut by as much.
  unfoldable pub send_once : ℕ → Method (Unit {0})
  send_once i = do
    p ← get_peer i
    answer ← ask (λ k. os.send k i p.send_buffer)
    sent ← lift answer
    put_peer i (record p {
      send_buffer = drop sent p.send_buffer;
      written = p.written ++ take sent p.send_buffer;
    })

  -- The rest of `handle_can_send` when the buffer is empty or not.
  unfoldable pub when_sent : ℕ → Method (Unit {0}) → Method (Unit {0})
  when_sent i next = do p ← get_peer i; when (length p.send_buffer == 0) next

  -- `handle_can_send` with the given backlog: it calls itself while there is some.
  unfoldable pub send_backlogged : ℕ → List Bytes → Method (Unit {0})
  send_backlogged i [] = do send_once i; when_sent i (stop_sending i)
  send_backlogged i (b ∷ bs) = do send_once i; when_sent i (do next_buffer i; send_backlogged i bs)

  unfoldable pub handle_can_send : ℕ → Method (Unit {0})
  handle_can_send i = do p ← get_peer i; send_backlogged i p.send_backlog
