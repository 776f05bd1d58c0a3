-- ===== src/Network/Receiver/Rounds.antt =====
-- One round of `MessageReceiver.receive` of skepticoin/networking/remote_peer.py, and its recursion.
use skepticoin.Network.Receiver.{Receiver}
use skepticoin.Network.Receiver.{read_magic, with_bytes}
use skepticoin.Prelude.{
  Bytes, List, [], ap, arith, drop, length, length-append, refl, suc, take, zero, ℕ, ◌++◌, ◌∷◌, ◌≡◌,
  ◌≤◌,
}
use skepticoin.Prelude.Result.{Error, err, ok}
use skepticoin.Network.Receiver.{read_len, with_len}
use skepticoin.Prelude.Result.{Result, ◌>>=◌}
use mathlib.Core.Path.{subst}
use skepticoin.Network.Receiver.{next_message, receive_round}
use skepticoin.Prelude.{Option-cases, false, inl, inr, none, some, sym, ◌∙◌}
use skepticoin.Prelude.Result.{>>=-eq_ok, ok-injective}
use skepticoin.Prelude.{if◌then◌else◌, length-drop, ◌+◌, ◌<◌}

take-append_le :
    {A : Type 0} (n : ℕ) (xs ys : List A) → n ≤ length xs → take n (xs ++ ys) ≡ take n xs
take-append_le zero xs ys h = refl
take-append_le (suc n) [] ys h = absurd (omega arith)
take-append_le {A = A} (suc n) (x ∷ xs) ys h =
    ap (λ (t : List A). x ∷ t) (take-append_le n xs ys (omega arith))

drop-append_le :
    {A : Type 0} (n : ℕ) (xs ys : List A) → n ≤ length xs → drop n (xs ++ ys) ≡ drop n xs ++ ys
drop-append_le zero xs ys h = refl
drop-append_le (suc n) [] ys h = absurd (omega arith)
drop-append_le (suc n) (x ∷ xs) ys h = drop-append_le n xs ys (omega arith)

-- The magic and the length of a message, as far as they are there.
abbrev read_head : Receiver → Result Receiver
read_head r = do r1 ← read_magic r; read_len r1

read_head_more :
    (r : Receiver) (b : Bytes) {r' : Receiver}
    → read_head r ≡ ok r'
    → read_head (with_bytes r b) ≡ read_head (with_bytes r' b)
unfolding read_magic read_len with_len
read_head_more r b e = ground (
  arith,
  length-append r.buffer b,
  take-append_le 4 r.buffer b,
  drop-append_le 4 r.buffer b,
  length-append (drop 4 r.buffer) b,
  take-append_le 4 (drop 4 r.buffer) b,
  drop-append_le 4 (drop 4 r.buffer) b,
)

read_head_fails :
    (r : Receiver) (b : Bytes) (x : Error)
    → read_head r ≡ err x
    → read_head (with_bytes r b) ≡ err x
unfolding read_magic read_len with_len
read_head_fails r b x e = ground (
  arith,
  length-append r.buffer b,
  take-append_le 4 r.buffer b,
  drop-append_le 4 r.buffer b,
  length-append (drop 4 r.buffer) b,
  take-append_le 4 (drop 4 r.buffer) b,
  drop-append_le 4 (drop 4 r.buffer) b,
)

-- A length is read only after the magic.
abbrev pub IsReading : Receiver → Type 0
IsReading r = r.magic_read ≡ false → r.len ≡ none

read_head-IsReading :
    (r : Receiver) {r' : Receiver} → IsReading r → read_head r ≡ ok r' → IsReading r'
unfolding read_magic read_len with_len
read_head-IsReading r h e = ground (arith, h)

-- With a length there is nothing more to read but the message.
read_head_done : (r : Receiver) (n : ℕ) → IsReading r → r.len ≡ some n → read_head r ≡ ok r
unfolding read_magic read_len
read_head_done r n h e = ground (arith, h)

receive_round-eq : (r : Receiver) → receive_round r ≡ (read_head r >>= λ r'. ok (next_message r'))
unfolding receive_round
receive_round-eq r =
    elim (read_magic r)
      as (λ m.
        (m >>= λ r1. read_len r1 >>= λ r2. ok (next_message r2))
        ≡ ((m >>= read_len) >>= λ r'. ok (next_message r'))) [ ok r1 ↦ refl | err e ↦ refl ]

next_message_waits : (r r' : Receiver) → next_message r ≡ (none, r') → r' ≡ r
unfolding next_message
next_message_waits r r' e = ground arith

-- A message that is all there is the same with more bytes after it, which are left.
next_message_more :
    (r r' : Receiver) (m b : Bytes)
    → next_message r ≡ (some m, r')
    → ((n : ℕ) × (r.len ≡ some n)) × (next_message (with_bytes r b) ≡ (some m, with_bytes r' b))
unfolding next_message
next_message_more r r' m b e = elim (Option-cases r.len) [
  | inl nothing ↦ absurd (ground (arith, rw nothing at e))
  | inr (n, there) ↦ (
    (n, there),
    ground
        (arith, length-append r.buffer b, take-append_le n r.buffer b, drop-append_le n r.buffer b),
  )
]

next_message-IsReading :
    (r r' : Receiver) (m : Bytes) → next_message r ≡ (some m, r') → IsReading r'
unfolding next_message
next_message-IsReading r r' m e = ground arith

bind_fails :
    {A B : Type 0} (m : Result A) (f : A → B) {x : Error}
    → (m >>= λ a. ok (f a)) ≡ err x
    → m ≡ err x
bind_fails (ok a) f e = cc
bind_fails (err y) f e = cc

pub round_fails :
    (r : Receiver) (b : Bytes) (x : Error)
    → receive_round r ≡ err x
    → receive_round (with_bytes r b) ≡ err x
round_fails r b x e =
    let e1 = bind_fails (read_head r) next_message (sym (receive_round-eq r) ∙ e) in
    receive_round-eq (with_bytes r b) ∙ rw (read_head_fails r b x e1) refl

pub round_waits :
    (r r' : Receiver) (b : Bytes)
    → IsReading r
    → receive_round r ≡ ok (none, r')
    → (receive_round (with_bytes r b) ≡ receive_round (with_bytes r' b)) × IsReading r'
round_waits r r' b h e =
    let (r2, e1, e2) = >>=-eq_ok (read_head r) _ (sym (receive_round-eq r) ∙ e) in
    let same : r' ≡ r2 = next_message_waits r2 r' (ok-injective e2) in
    subst (λ x. (receive_round (with_bytes r b) ≡ receive_round (with_bytes x b)) × IsReading x)
      (sym same)
      (
        rw
            (
              receive_round-eq (with_bytes r b),
              receive_round-eq (with_bytes r2 b),
              read_head_more r b e1,
            )
            refl,
        read_head-IsReading r h e1,
      )

pub round_hands :
    (r r' : Receiver) (m b : Bytes)
    → IsReading r
    → receive_round r ≡ ok (some m, r')
    → (receive_round (with_bytes r b) ≡ ok (some m, with_bytes r' b)) × IsReading r'
round_hands r r' m b h e =
    let (r2, e1, e2) = >>=-eq_ok (read_head r) _ (sym (receive_round-eq r) ∙ e) in
    let ((n, there), longer) = next_message_more r2 r' m b (ok-injective e2) in
    let reading = read_head-IsReading r h e1 in
    (
      receive_round-eq (with_bytes r b)
          ∙ rw (read_head_more r b e1, read_head_done (with_bytes r2 b) n reading there, longer)
              refl,
      next_message-IsReading r2 r' m (ok-injective e2),
    )

-- How much of the messages to come was received.
abbrev pub weight : Receiver → ℕ
weight r =
    length r.buffer + (if r.magic_read then 4 else 0) + (elim r.len [ none ↦ 0 | some n ↦ 4 ])

read_head-weight : (r r' : Receiver) → read_head r ≡ ok r' → weight r' ≡ weight r
unfolding read_magic read_len with_len
read_head-weight r r' e = ground (arith, length-drop 4 r.buffer, length-drop 4 (drop 4 r.buffer))

next_message-weight :
    (r r' : Receiver) (m : Bytes) → next_message r ≡ (some m, r') → weight r' < weight r
unfolding next_message
next_message-weight r r' m e = elim (Option-cases r.len) [
  | inl nothing ↦ absurd (ground (arith, rw nothing at e))
  | inr (n, there) ↦ ground (arith, length-drop n r.buffer)
]

pub round_hands-weight :
    (r r' : Receiver) (m : Bytes) → receive_round r ≡ ok (some m, r') → weight r' < weight r
round_hands-weight r r' m e =
    let (r2, e1, e2) = >>=-eq_ok (read_head r) _ (sym (receive_round-eq r) ∙ e) in
    omega (arith, read_head-weight r r2 e1, next_message-weight r2 r' m (ok-injective e2))
