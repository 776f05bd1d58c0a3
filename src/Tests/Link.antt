-- ===== src/Tests/Link.antt =====
-- A message on a connection from end to end, over a toy operating system.
use skepticoin.Network.Messages.{msg_get_peers, MessageHeader, get_peers}
use skepticoin.Network.Messages.Wire.{serialize_message, serialize_message_header}
use skepticoin.Network.Params.{max_message_size}
use skepticoin.Network.Receiver.{new_receiver, receive_all}
use skepticoin.Network.Sending.Link.{
  Act, Said, after_acts, at_end, flushed, link_delivers, may_send, say, with_data, without,
}
use skepticoin.Prelude.{
  All, Bytes, List, none, [], ◌∷◌, ◌++◌, ◌≡◌, ◌≤◌, ◌+◌, ℕ, arith, refl, length, sym, ap, ◌∙◌,
  replicate,
}
use skepticoin.Prelude.Result
use skepticoin.Prelude.Result.{Result, err, ok, ok-injective, ◌then_write◌}
use skepticoin.Serialization.Pack.{pack, to_be}
use skepticoin.Network.Receiver.{joined, magic}
use skepticoin.Network.Sending.Queue.{queued}
use skepticoin.Network.Method.{pure, lift}
use skepticoin.Tests.Network.{keep, toy_os, toy_node}
use skepticoin.Tests.Toy.{toy}
use skepticoin.Network.Messages.Wire.{serialize_get_peers}
use skepticoin.Prelude.{length-append}
use skepticoin.Serialization.PackLaws.{length-to_be, pack-eq_ok}
use skepticoin.Network.Method.{ask, change, get_peer, gets, on_selector, put_peer, when}
use skepticoin.Network.Node.{new_node}
use skepticoin.Network.Receiver.Frames.{frame}
use skepticoin.Network.Sending.{
  caught_value_error, enqueue, frame_data, get_msg_id, handle_can_send, new_header, next_buffer,
  pop_first, reply_to, send_backlogged, send_message, send_once, start_sending, stop_sending,
  when_sent,
}
use skepticoin.Network.Sending.Link.{act}
use skepticoin.Network.State.{new_connected_peer}
use skepticoin.Network.Receiver.Frames.{handle_all}

-- The length of what is written.
abbrev HasLength : Result Bytes → ℕ → Type 0
HasLength r n = (b : Bytes) → r ≡ ok b → length b ≡ n

has_pack : (w n : ℕ) → HasLength (pack w n) w
has_pack w n b e = ap length (pack-eq_ok w n e).1 ∙ length-to_be w n

has_ok : (b : Bytes) → HasLength (ok b) (length b)
has_ok b c e = ap length (sym (ok-injective e))

has_both :
    (m k : Result Bytes) (i j : ℕ)
    → HasLength m i
    → HasLength k j
    → HasLength (m then_write k) (i + j)
has_both m k i j hm hk b e =
    (let (a, e1, h1) = Result.>>=-eq_ok m _ e in
      let (c, e2, h2) = Result.>>=-eq_ok k _ h1 in
      ap length (sym (ok-injective h2)) ∙ length-append a c ∙ omega (arith, hm a e1, hk c e2))

has_header : (h : MessageHeader) → HasLength (serialize_message_header h) 53
unfolding serialize_message_header
has_header h = has_both _ _ 1 52 (has_pack 1 0) (
    has_both _ _ 4 48 (has_pack 4 h.timestamp) (
      has_both _ _ 4 44 (has_pack 4 h.id) (
        has_both _ _ 4 40 (has_pack 4 h.in_response_to)
          (has_both _ _ 8 32 (has_pack 8 h.context) (has_ok (replicate 32 0))))))

has_get_peers : HasLength (serialize_message get_peers) 3
unfolding serialize_message serialize_get_peers
has_get_peers = has_both _ _ 2 1 (has_ok msg_get_peers) (has_pack 1 0)

abbrev acts : List Act
acts = say get_peers none ∷ may_send ∷ []

small : (ds : List Bytes) → Said 0 toy_node acts ds → All (λ d. length d ≤ max_message_size) ds
small ds (with_data h e (flushed at_end)) =
    (rw (has_both _ _ 53 3 (has_header h) has_get_peers _ e) (omega arith), tt)
small ds (without e raised (flushed at_end)) = tt

abbrev said : Bytes
said = 0 ∷ 101 ∷ 83 ∷ 241 ∷ 0 ∷ 0 ∷ 0 ∷ 0 ∷ 1 ∷ replicate 44 0 ++ (0 ∷ 5 ∷ 0 ∷ [])

abbrev on_the_wire : Bytes
on_the_wire = magic ++ (0 ∷ 0 ∷ 0 ∷ 56 ∷ said)

link_run :
    (queued (toy_node.peer_objects 0) ≡ [])
    × (((after_acts 0 acts toy_node).peer_objects 0).send_buffer ≡ [])
    × (((after_acts 0 acts toy_node).peer_objects 0).send_backlog ≡ [])
    × (on_the_wire ++ joined [] ≡ ((after_acts 0 acts toy_node).peer_objects 0).written)
unfolding new_node new_connected_peer after_acts act send_message new_header reply_to ask get_msg_id
    get_peer put_peer gets change lift pure when on_selector enqueue next_buffer pop_first
    start_sending caught_value_error frame_data frame pack to_be serialize_message_header
    serialize_message serialize_get_peers handle_can_send send_backlogged send_once when_sent
    stop_sending skepticoin.Network.Method.◌>>=◌
link_run = (refl, refl, refl, refl)

link_delivers_example :
    (ds : List Bytes) × Said 0 toy_node acts ds
    × (receive_all keep new_receiver (on_the_wire ∷ []) [] ≡ handle_all keep ds [])
link_delivers_example =
    link_delivers 0 keep [] acts toy_node on_the_wire [] link_run.0 small link_run.1 link_run.2
      link_run.3
