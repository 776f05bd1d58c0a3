-- ===== src/Network/Sending/Queue.antt =====
-- What `ConnectedRemotePeer` of skepticoin/networking/remote_peer.py has to send: the bytes that its
-- socket has taken, the buffer and the backlog.
use skepticoin.Network.Os.{Os}
use skepticoin.Network.Keeps.{Keeps, Keeps-bind, Keeps-pure, lift_at, when_at}
use skepticoin.Network.Messages.{MessageHeader}
use skepticoin.Network.Method.{Method, with_peer, ◌>>=◌}
use skepticoin.Network.Receiver.{joined}
use skepticoin.Network.State.{ConnectedPeer, Node}
use skepticoin.Network.Sending.{
  enqueue, handle_can_send, next_buffer, send_backlogged, send_once, start_sending, when_sent,
}
use skepticoin.Prelude.{
  Bytes, List, Option, none, some, [], ◌∷◌, ◌++◌, ◌≡◌, ◌==◌, ℕ, refl, true, length,
}
use skepticoin.Prelude.Result.{Result, err, ok}
use skepticoin.Prelude.{append-nil, append_assoc, drop, suc, sym, take, zero}
use skepticoin.Prelude.Eq.{list_eq, nat_eq, ≟_refl}
use skepticoin.Network.Keeps.{ask_at, bind_at, gets_at, Keeps-gets, Keeps-self}
use skepticoin.Network.Method.{change, get_peer, lift, on_selector, put_peer, with_selector}
use skepticoin.Network.Sending.{pop_first, stop_sending}
use skepticoin.Prelude.{ap, arith, ◌∙◌}
use skepticoin.Network.Keeps.{change_at}
use skepticoin.Network.Method.{ask}
use skepticoin.Network.Sending.{get_msg_id, new_header, reply_to}

abbrev pub queued : ConnectedPeer → Bytes
queued p = p.written ++ (p.send_buffer ++ joined p.send_backlog)

take-drop : (k : ℕ) (b : Bytes) → take k b ++ drop k b ≡ b
take-drop zero b = refl
take-drop (suc k) [] = refl
take-drop (suc k) (x ∷ b) = ap (λ l. x ∷ l) (take-drop k b)

joined-snoc : (bs : List Bytes) (b : Bytes) → joined (bs ++ (b ∷ [])) ≡ joined bs ++ b
joined-snoc [] b = append-nil b
joined-snoc (c ∷ bs) b = rw (joined-snoc bs b) (sym (append_assoc c (joined bs) b))

sent_same :
    (w buffer rest : Bytes) (k : ℕ)
    → (w ++ take k buffer) ++ (drop k buffer ++ rest) ≡ w ++ (buffer ++ rest)
sent_same w buffer rest k =
    append_assoc w (take k buffer) (drop k buffer ++ rest)
    ∙ ap (λ l. w ++ l)
        (sym (append_assoc (take k buffer) (drop k buffer) rest)
          ∙ ap (λ l. l ++ rest) (take-drop k buffer))

moved_same : (w b : Bytes) (bs : List Bytes) → w ++ (b ++ joined bs) ≡ w ++ ([] ++ joined (b ∷ bs))
moved_same w b bs = refl

added_same :
    (w buffer : Bytes) (bs : List Bytes) (b : Bytes)
    → w ++ (buffer ++ joined (bs ++ (b ∷ []))) ≡ (w ++ (buffer ++ joined bs)) ++ b
added_same w buffer bs b =
    ap (λ l. w ++ (buffer ++ l)) (joined-snoc bs b)
    ∙ ap (λ l. w ++ l) (sym (append_assoc buffer (joined bs) b))
    ∙ sym (append_assoc w (buffer ++ joined bs) b)

pop_first-eq_ok :
    (bs : List Bytes) {b : Bytes} {rest : List Bytes} → pop_first bs ≡ ok (b, rest) → bs ≡ b ∷ rest
unfolding pop_first
pop_first-eq_ok [] h = cc
pop_first-eq_ok (c ∷ bs) h = cc

empty_lem : (b : Bytes) → (length b == 0) ≡ true → b ≡ []
empty_lem [] e = refl
empty_lem (x ∷ b) e = absurd (ground arith)

module _ ⦃os : Os⦄ (i : ℕ) where
  peer_put : (p : ConnectedPeer) (n : Node) → (with_peer i p n).peer_objects i ≡ p
  peer_put p n = ground (arith, ≟_refl i)

  pub record Has (q : Bytes) (n : Node) : Type 0 where
    pub has : queued (n.peer_objects i) ≡ q

  -- The buffer is empty as well.
  record HasSent (q : Bytes) (n : Node) : Type 0 where
    has : queued (n.peer_objects i) ≡ q
    sent : (n.peer_objects i).send_buffer ≡ []

  put_self : (q : Bytes) (p : ConnectedPeer) (n : Node) → queued p ≡ q → Has q (with_peer i p n)
  put_self q p n e = record { has = ap queued (peer_put p n) ∙ e }

  selector-Has : (q : Bytes) (f : os.Selector → Result os.Selector) → Keeps (Has q) (on_selector f)
  unfolding on_selector
  selector-Has q f = record { kept = λ n h. keep n (f n.selector) h }
    where
      keep : (n : Node) (r : Result os.Selector) → Has q n → Has q (with_selector n r).1
      keep n (err e) h = record { has = h.has }
      keep n (ok s) h = record { has = h.has }

  popped :
      (q : Bytes) (r : Result (Bytes × List Bytes)) (n : Node)
      → pop_first (n.peer_objects i).send_backlog ≡ r
      → HasSent q n
      → Has q
          ((lift r >>= λ popped.
              put_peer i
                (record (n.peer_objects i) { send_buffer = popped.0; send_backlog = popped.1 }))
            n).1
  unfolding lift ◌>>=◌ put_peer change
  popped q (err e) n h s = record { has = s.has }
  popped q (ok (b, bs)) n h s = put_self q _ n (rw (s.sent, pop_first-eq_ok _ h) at s.has)

  next_buffer-Has : (q : Bytes) (n : Node) → HasSent q n → Has q (next_buffer i n).1
  unfolding next_buffer get_peer
  next_buffer-Has q n s =
      gets_at (Has q) _ _ (popped q (pop_first (n.peer_objects i).send_backlog) n refl s)

  when_sent-Has :
      (q : Bytes) (m : Method (Unit {0}))
      → ((n : Node) → HasSent q n → Has q (m n).1)
      → Keeps (Has q) (when_sent i m)
  unfolding when_sent get_peer
  when_sent-Has q m h =
      Keeps-self (Has q) _ _
        (λ n p. when_at (Has q) _ m (λ e. h n (record { has = p.has; sent = empty_lem _ e })) p)

  send_once-Has : (q : Bytes) → Keeps (Has q) (send_once i)
  unfolding send_once get_peer put_peer change
  send_once-Has q = Keeps-self (Has q) _ _ (λ n p. ask_at (Has q) _ _ (
      lift_at (Has q) _ _ (λ k e. put_self q _ _ (sent_same _ _ _ k ∙ p.has))
        (record { has = p.has })))

  send_backlogged-Has : (q : Bytes) (bs : List Bytes) → Keeps (Has q) (send_backlogged i bs)
  unfolding send_backlogged stop_sending
  send_backlogged-Has q [] =
      Keeps-bind (Has q) (send_once-Has q)
        (λ u. when_sent-Has q _ (λ n s. (selector-Has q _).kept n (record { has = s.has })))
  send_backlogged-Has q (b ∷ bs) = Keeps-bind (Has q) (send_once-Has q) (λ u.
      when_sent-Has q _
        (λ n s. bind_at (Has q) _ _ (next_buffer-Has q n s) (λ u. send_backlogged-Has q bs)))

  pub handle_can_send-Has : (q : Bytes) → Keeps (Has q) (handle_can_send i)
  unfolding handle_can_send get_peer
  handle_can_send-Has q = Keeps-bind (Has q) (Keeps-gets (Has q) _) (λ p. send_backlogged-Has q _)

  pub enqueue-Has : (b : Bytes) (n : Node) → Has (queued (n.peer_objects i) ++ b) (enqueue i b n).1
  unfolding enqueue get_peer put_peer start_sending
  enqueue-Has b n =
      (let p = n.peer_objects i in
        let q = queued p ++ b in
        let p' = record p { send_backlog = p.send_backlog ++ (b ∷ []) } in
        let put : Has q (with_peer i p' n) =
          put_self q p' n (added_same p.written p.send_buffer p.send_backlog b) in
        gets_at (Has q) _ _ (
          change_at (Has q) _ _ (
            when_at (Has q) _ _
              (λ e.
                bind_at (Has q) _ _
                  (next_buffer-Has q _ (record {
                    has = put.has;
                    sent = ap (λ x. x.send_buffer) (peer_put p' n) ∙ empty_lem p.send_buffer e;
                  }))
                  (λ u. selector-Has q _))
              put)))

  ask-Has : {A : Type 0} (q : Bytes) (f : ℕ → A) → Keeps (Has q) (ask f)
  unfolding ask
  ask-Has q f = record { kept = λ n p. record { has = p.has } }

  reply-Has : (q : Bytes) (h : Option MessageHeader) → Keeps (Has q) (reply_to h)
  unfolding reply_to
  reply-Has q none = Keeps-bind (Has q) (ask-Has q _) (λ r. Keeps-pure (Has q) _)
  reply-Has q (some h) = Keeps-pure (Has q) _

  pub new_header-Has : (q : Bytes) (h : Option MessageHeader) → Keeps (Has q) (new_header i h)
  unfolding new_header get_msg_id get_peer put_peer
  new_header-Has q h = Keeps-bind (Has q) (reply-Has q h) (λ r.
      Keeps-bind (Has q) (ask-Has q os.clock) (λ t.
        Keeps-bind (Has q)
          (Keeps-self (Has q) _ _
            (λ n p. change_at (Has q) _ _ ((Keeps-pure (Has q) _).kept _ (put_self q _ n p.has))))
          (λ k. Keeps-pure (Has q) _)))
