-- ===== src/Network/Sending/Link.antt =====
-- A connection of skepticoin/networking from end to end: what `send_message` and `handle_can_send` of
-- a peer give to its socket, and what the `MessageReceiver` at the other side makes of it.
use skepticoin.Crypto.{Crypto}
use skepticoin.Network.Os.{Os}
use skepticoin.Network.Messages.{Message, MessageHeader}
use skepticoin.Network.Method.{Method, after, ◌>>=◌}
use skepticoin.Network.Messages.Wire.{serialize_message, serialize_message_header}
use skepticoin.Network.Params.{max_message_size}
use skepticoin.Network.Receiver.{joined, receive_all, new_receiver}
use skepticoin.Network.Receiver.Frames.{frame, frames, receive_all-frames}
use skepticoin.Network.State.{ConnectedPeer, Node}
use skepticoin.Network.Sending.{frame_data, handle_can_send, send_message}
use skepticoin.Network.Sending.Queue.{Has, enqueue-Has, handle_can_send-Has, new_header-Has, queued}
use skepticoin.Prelude.{
  All, Bytes, List, Option, [], ◌∷◌, ◌++◌, ◌≡◌, ℕ, refl, sym, ap, ◌∙◌, ◌≤◌, length,
}
use skepticoin.Prelude.Result.{Result, err, ok, ◌then_write◌}
use skepticoin.Network.Sending.{enqueue}
use skepticoin.Prelude.{append-nil}
use skepticoin.Prelude.{append_assoc}
use skepticoin.Network.Method.{lift}
use skepticoin.Network.Receiver.Frames.{handle_all}
use skepticoin.Network.Sending.{new_header}
use skepticoin.Prelude.Result.{Error}

-- A call of `send_message` or of `handle_can_send`.
pub data Act : Type 0 where
  say : Message → Option MessageHeader → Act
  may_send : Act

frame_data-eq_ok :
    (r : Result Bytes) {f : Bytes}
    → frame_data r ≡ ok f
    → (d : Bytes) × (r ≡ ok d) × (frame d ≡ ok f)
unfolding frame_data
frame_data-eq_ok (err e) h = cc
frame_data-eq_ok (ok d) h = (d, refl, h)

module _ ⦃os : Os⦄ ⦃c : Crypto⦄ (i : ℕ) where
  unfoldable pub act : Act → Method (Unit {0})
  act (say m prev) = send_message i m prev
  act may_send = handle_can_send i

  -- Whatever a call raises, the next one follows.
  unfoldable pub after_acts : List Act → Node → Node
  after_acts [] n = n
  after_acts (a ∷ acts) n = after_acts acts (act a n).1

  -- The data of the messages that are said from a node on, each behind some header, in order. A
  -- message whose call returns is among them; one whose call raises may be left out.
  pub data Said : Node → List Act → List Bytes → Type 0 where
    at_end : {n : Node} → Said n [] []
    with_data :
        {n : Node} {m : Message} {prev : Option MessageHeader} {acts : List Act} {ds : List Bytes}
        {d : Bytes} (h : MessageHeader)
        → (serialize_message_header h then_write serialize_message m) ≡ ok d
        → Said (send_message i m prev n).1 acts ds
        → Said n (say m prev ∷ acts) (d ∷ ds)
    without :
        {n : Node} {m : Message} {prev : Option MessageHeader} {acts : List Act} {ds : List Bytes}
        (e : Error)
        → (send_message i m prev n).0 ≡ err e
        → Said (send_message i m prev n).1 acts ds
        → Said n (say m prev ∷ acts) ds
    flushed :
        {n : Node} {acts : List Act} {ds : List Bytes}
        → Said (handle_can_send i n).1 acts ds
        → Said n (may_send ∷ acts) ds

  -- An exception and nothing, or the frame of the message.
  data Put (m : Message) (q : Bytes) (x : Result (Unit {0}) × Node) : Type 0 where
    nothing : (e : Error) → x.0 ≡ err e → queued (x.1.peer_objects i) ≡ q → Put m q x
    framed :
        (h : MessageHeader) {d f : Bytes}
        → (serialize_message_header h then_write serialize_message m) ≡ ok d
        → frame d ≡ ok f
        → queued (x.1.peer_objects i) ≡ q ++ f
        → Put m q x

  after_frame :
      (m : Message) (q : Bytes) (h : MessageHeader) (r : Result Bytes) (n : Node)
      → frame_data (serialize_message_header h then_write serialize_message m) ≡ r
      → Has i q n
      → Put m q (after (r, n) (enqueue i))
  after_frame m q h (err x) n e has = nothing x refl has.has
  after_frame m q h (ok f) n e has =
      (let (d, e1, e2) = frame_data-eq_ok _ e in
        framed h e1 e2 ((enqueue-Has i f n).has ∙ ap (λ x. x ++ f) has.has))

  after_header :
      (m : Message) (q : Bytes) (r : Result MessageHeader × Node)
      → Has i q r.1
      → Put m q (
          after r (λ h.
            lift (frame_data (serialize_message_header h then_write serialize_message m))
            >>= enqueue i))
  unfolding ◌>>=◌ lift
  after_header m q (err x, n) has = nothing x refl has.has
  after_header m q (ok h, n) has = after_frame m q h _ n refl has

  send_message-Put :
      (m : Message) (prev : Option MessageHeader) (n : Node)
      → Put m (queued (n.peer_objects i)) (send_message i m prev n)
  unfolding send_message ◌>>=◌
  send_message-Put m prev n =
      (let q = queued (n.peer_objects i) in
        after_header m q (new_header i prev n)
          ((new_header-Has i q prev).kept n (record { has = refl })))

  -- What the acts add to the bytes that are queued.
  record Added (start : Node) (acts : List Act) (q : Bytes) (n : Node) : Type 0 where
    datas : List Bytes
    said : Said start acts datas
    bytes : Bytes
    in_frames : frames datas ≡ ok bytes
    total : queued (n.peer_objects i) ≡ q ++ bytes

  then_Added :
      {m : Message} {prev : Option MessageHeader} {acts : List Act} {q : Bytes} (n n' : Node)
      → Put m q (send_message i m prev n)
      → Added
          (send_message i m prev n).1
          acts
          (queued ((send_message i m prev n).1.peer_objects i))
          n'
      → Added n (say m prev ∷ acts) q n'
  unfolding frames
  then_Added n n' (nothing x raised e) r = record {
    datas = r.datas;
    said = without x raised r.said;
    bytes = r.bytes;
    in_frames = r.in_frames;
    total = r.total ∙ ap (λ x. x ++ r.bytes) e;
  }
  then_Added {q = q} n n' (framed h {d = d} {f = f} e1 e2 e) r = record {
    datas = d ∷ r.datas;
    said = with_data h e1 r.said;
    bytes = f ++ r.bytes;
    in_frames = rw (e2, r.in_frames) refl;
    total = r.total ∙ ap (λ x. x ++ r.bytes) e ∙ append_assoc q f r.bytes;
  }

  acts-Added :
      (acts : List Act) (n : Node) → Added n acts (queued (n.peer_objects i)) (after_acts acts n)
  unfolding after_acts act frames
  acts-Added [] n = record {
    datas = [];
    said = at_end;
    bytes = [];
    in_frames = refl;
    total = sym (append-nil (queued (n.peer_objects i)));
  }
  acts-Added (say m prev ∷ acts) n =
      then_Added n _ (send_message-Put m prev n) (acts-Added acts (send_message i m prev n).1)
  acts-Added (may_send ∷ acts) n =
      (let r = acts-Added acts (handle_can_send i n).1 in
        let same =
          (handle_can_send-Has i (queued (n.peer_objects i))).kept n (record { has = refl }) in
        record {
          datas = r.datas;
          said = flushed r.said;
          bytes = r.bytes;
          in_frames = r.in_frames;
          total = r.total ∙ ap (λ x. x ++ r.bytes) same.has;
        })

  all_written :
      (p : ConnectedPeer) → p.send_buffer ≡ [] → p.send_backlog ≡ [] → queued p ≡ p.written
  all_written p e1 e2 = rw (e1, e2) (append-nil p.written)

  -- A peer with nothing to send calls `send_message` and `handle_can_send` in any order, whatever the
  -- clock, the selector and the socket answer, until nothing is left in its buffer and its backlog. If
  -- no data that was said is larger than MAX_MESSAGE_SIZE, then a new receiver that is handed what the
  -- socket took, cut into any pieces, does what handling the data that was said does, each once and in
  -- order, until the handling of one raises, with nothing in between or left over. The data of a
  -- message whose call raised may be left out of what was said, and of no other.
  pub link_delivers :
      {S : Type 0} (handle : Bytes → S → Result (Unit {0}) × S) (s : S) (acts : List Act) (n : Node)
      (b : Bytes) (bs : List Bytes)
      → queued (n.peer_objects i) ≡ []
      → ((ds : List Bytes) → Said n acts ds → All (λ d. length d ≤ max_message_size) ds)
      → ((after_acts acts n).peer_objects i).send_buffer ≡ []
      → ((after_acts acts n).peer_objects i).send_backlog ≡ []
      → b ++ joined bs ≡ ((after_acts acts n).peer_objects i).written
      → (ds : List Bytes) × Said n acts ds
        × (receive_all handle new_receiver (b ∷ bs) s ≡ handle_all handle ds s)
  link_delivers handle s acts n b bs fresh small buffer backlog pieces =
      (let r = acts-Added acts n in
        let written = sym (all_written ((after_acts acts n).peer_objects i) buffer backlog) in
        let total : b ++ joined bs ≡ r.bytes =
          pieces ∙ written ∙ r.total ∙ ap (λ x. x ++ r.bytes) fresh in
        (
          r.datas,
          r.said,
          receive_all-frames handle r.datas b bs s (small r.datas r.said)
              (r.in_frames ∙ ap ok (sym total)),
        ))
