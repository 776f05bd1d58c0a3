-- ===== src/Network/Receiver/Pieces.antt =====
-- Bytes that reach `MessageReceiver` of skepticoin/networking/remote_peer.py in pieces.
use skepticoin.Network.Receiver.{Receiver, Ending, stopped, waiting}
use skepticoin.Network.Receiver.{after_round, drain, go_on, receive_round, with_bytes}
use skepticoin.Network.Receiver.Rounds.{IsReading, round_fails, round_hands-weight, weight}
use skepticoin.Prelude.{
  Bytes, Option, [], ap, arith, inl, inr, none, refl, some, suc, sym, zero, ℕ, ◌<◌, ◌∙◌, ◌∷◌, ◌≡◌,
  ◌⊎◌,
}
use skepticoin.Prelude.Result.{Error, Result, err, ok}
use mathlib.Core.Path.{subst}
use skepticoin.Network.Receiver.{receive}
use skepticoin.Network.Receiver.Rounds.{round_hands, round_waits}
use skepticoin.Prelude.{List}
use skepticoin.Network.Receiver.{receive_all}
use skepticoin.Prelude.{append_assoc, length, ◌++◌, ◌+◌}
use skepticoin.Network.Receiver.{joined}
use skepticoin.Prelude.{append-nil}
use skepticoin.Network.Receiver.{if_handled}

round_cases :
    (m : Result (Option Bytes × Receiver))
    → ((x : Error) × (m ≡ err x))
      ⊎ ((r' : Receiver) × (m ≡ ok (none, r')))
      ⊎ ((a : Bytes) × (r' : Receiver) × (m ≡ ok (some a, r')))
round_cases (err x) = inl (x, refl)
round_cases (ok (none, r')) = inr (inl (r', refl))
round_cases (ok (some a, r')) = inr (inr (a, r', refl))

waiting_injective : {r s : Receiver} → waiting r ≡ waiting s → r ≡ s
waiting_injective e = cc

stopped-ne-waiting : {A : Type 0} {x : Error} {r : Receiver} → stopped x ≡ waiting r → A
stopped-ne-waiting e = cc

pub if_handled_ext :
    {S : Type 0} (x : Result (Unit {0}) × S) (k k' : S → Ending × S)
    → ((s : S) → k s ≡ k' s)
    → if_handled x k ≡ if_handled x k'
if_handled_ext (err e, s) k k' h = refl
if_handled_ext (ok u, s) k k' h = h s

if_handled_waits :
    {S : Type 0} {r : Receiver} (x : Result (Unit {0}) × S) (k : S → Ending × S)
    → (if_handled x k).0 ≡ waiting r
    → (s : S) × ((k s).0 ≡ waiting r)
if_handled_waits (err e, s) k h = stopped-ne-waiting h
if_handled_waits (ok u, s) k h = (s, h)

go_on-if_handled :
    {S : Type 0} (x : Result (Unit {0}) × S) (k : S → Ending × S) (next : Receiver → S → Ending × S)
    → go_on (if_handled x k) next ≡ if_handled x (λ s. go_on (k s) next)
go_on-if_handled (err e, s) k next = refl
go_on-if_handled (ok u, s) k next = refl

go_on_ext :
    {S : Type 0} (x : Ending × S) (next next' : Receiver → S → Ending × S)
    → ((r : Receiver) (s : S) → x.0 ≡ waiting r → next r s ≡ next' r s)
    → go_on x next ≡ go_on x next'
go_on_ext (stopped e, s) next next' h = refl
go_on_ext (waiting r, s) next next' h = h r s refl

go_on_end : {S : Type 0} (x : Ending × S) → go_on x (λ r s. (waiting r, s)) ≡ x
go_on_end (stopped e, s) = refl
go_on_end (waiting r, s) = refl

weight_bound : (r : Receiver) → weight r < length r.buffer + 9
weight_bound r = ground arith

module _ {S : Type 0} (handle : Bytes → S → Result (Unit {0}) × S) where
  drain-round :
      (f : ℕ) (r : Receiver) (s : S) {m : Result (Option Bytes × Receiver)}
      → receive_round r ≡ m
      → drain handle (suc f) r s ≡ after_round handle m s (drain handle f)
  unfolding drain
  drain-round f r s e = rw e refl

  -- The recursion does not depend on the rounds that are left, when they are enough.
  drain_enough :
      (f g : ℕ) (r q : Receiver) (s : S)
      → weight r < f
      → weight q < g
      → receive_round r ≡ receive_round q
      → drain handle f r s ≡ drain handle g q s
  drain_enough zero g r q s h k e = absurd (omega arith)
  drain_enough (suc f) zero r q s h k e = absurd (omega arith)
  drain_enough (suc f) (suc g) r q s h k e = elim (round_cases (receive_round q)) [
    | inl (x, p) ↦ drain-round f r s (e ∙ p) ∙ sym (drain-round g q s p)
    | inr (inl (r', p)) ↦ drain-round f r s (e ∙ p) ∙ sym (drain-round g q s p)
    | inr (inr (a, r', p)) ↦
        drain-round f r s (e ∙ p)
        ∙ if_handled_ext (handle a s) _ _ (λ s'.
          drain_enough f g r' r' s' (omega (arith, round_hands-weight r r' a (e ∙ p)))
            (omega (arith, round_hands-weight q r' a p)) refl)
        ∙ sym (drain-round g q s p)
  ]

  abbrev pub drain_all : Receiver → S → Ending × S
  drain_all r s = drain handle (suc (weight r)) r s

  pub drain_all-hands :
      (r r' : Receiver) (a : Bytes) (s : S)
      → receive_round r ≡ ok (some a, r')
      → drain_all r s ≡ if_handled (handle a s) (drain_all r')
  drain_all-hands r r' a s e =
      drain-round (weight r) r s e
      ∙ if_handled_ext (handle a s) _ _ (λ s'.
        drain_enough (weight r) (suc (weight r')) r' r' s' (round_hands-weight r r' a e)
          (omega arith) refl)

  -- Bytes that come later are drained by the receiver that waits for them.
  drain_more :
      (f : ℕ) (r : Receiver) (b : Bytes) (s : S)
      → weight r < f
      → IsReading r
      → drain_all (with_bytes r b) s
        ≡ go_on (drain handle f r s) (λ r' s'. drain_all (with_bytes r' b) s')
  drain_more zero r b s p h = absurd (omega arith)
  drain_more (suc f) r b s p h = elim (round_cases (receive_round r)) [
    | inl (x, e) ↦ rw (drain-round f r s e) (drain-round _ _ s (round_fails r b x e))
    | inr (inl (r', e)) ↦ rw (drain-round f r s e) (
        drain_enough _ _ (with_bytes r b) (with_bytes r' b) s (omega arith) (omega arith)
          (round_waits r r' b h e).0)
    | inr (inr (a, r', e)) ↦ rw (drain-round f r s e) (
        drain_all-hands (with_bytes r b) (with_bytes r' b) a s (round_hands r r' a b h e).0
        ∙ if_handled_ext (handle a s) _ _ (λ s'.
          drain_more f r' b s' (omega (arith, round_hands-weight r r' a e))
            (round_hands r r' a b h e).1)
        ∙ sym (go_on-if_handled (handle a s) _ _))
  ]

  -- A receiver that waits has read no length without the magic.
  drain-IsReading :
      (f : ℕ) (r r' : Receiver) (s : S)
      → IsReading r
      → (drain handle f r s).0 ≡ waiting r'
      → IsReading r'
  unfolding drain
  drain-IsReading zero r r' s h e = stopped-ne-waiting e
  drain-IsReading (suc f) r r' s h e = elim (round_cases (receive_round r)) [
    | inl (x, q) ↦ stopped-ne-waiting (rw q at e)
    | inr (inl (r1, q)) ↦
        subst IsReading (waiting_injective (rw q at e)) (round_waits r r1 [] h q).1
    | inr (inr (a, r1, q)) ↦
        let (s', e') = if_handled_waits (handle a s) (drain handle f r1) (rw q at e) in
        drain-IsReading f r1 r' s' (round_hands r r1 a [] h q).1 e'
  ]

  pub receive-drain_all :
      (r : Receiver) (b : Bytes) (s : S) → receive handle r b s ≡ drain_all (with_bytes r b) s
  unfolding receive
  receive-drain_all r b s =
      drain_enough _ _ (with_bytes r b) (with_bytes r b) s (weight_bound (with_bytes r b))
        (omega arith) refl

  receive-IsReading :
      (r r' : Receiver) (b : Bytes) (s : S)
      → IsReading r
      → (receive handle r b s).0 ≡ waiting r'
      → IsReading r'
  unfolding receive
  receive-IsReading r r' b s h e = drain-IsReading _ (with_bytes r b) r' s h e

  receive-append :
      (r : Receiver) (b c : Bytes) (s : S)
      → IsReading r
      → receive handle r (b ++ c) s ≡ go_on (receive handle r b s) (λ r' s'. receive handle r' c s')
  receive-append r b c s h =
      receive-drain_all r (b ++ c) s
      ∙ ap (λ q. drain_all q s)
          (ap (λ (x : Bytes). record r { buffer = x }) (sym (append_assoc r.buffer b c)))
      ∙ drain_more (suc (weight (with_bytes r b))) (with_bytes r b) c s (omega arith) h
      ∙ ap (λ x. go_on x (λ r' s'. drain_all (with_bytes r' c) s')) (sym (receive-drain_all r b s))
      ∙ go_on_ext (receive handle r b s) _ _ (λ r' s' e. sym (receive-drain_all r' c s'))

  -- However bytes are cut into pieces, at least one, and whatever the handling of messages does and
  -- raises: a receiver that has read no length without the magic hands over the same messages, in the
  -- same order, and ends the same way as if the bytes had come at once.
  pub receive_all_pieces :
      (r : Receiver) (b : Bytes) (bs : List Bytes) (s : S)
      → IsReading r
      → receive_all handle r (b ∷ bs) s ≡ receive handle r (b ++ joined bs) s
  unfolding receive_all
  receive_all_pieces r b [] s h =
      go_on_end (receive handle r b s) ∙ ap (λ x. receive handle r x s) (sym (append-nil b))
  receive_all_pieces r b (c ∷ bs) s h =
      go_on_ext (receive handle r b s) _ _
        (λ r' s' e. receive_all_pieces r' c bs s' (receive-IsReading r r' b s h e))
      ∙ sym (receive-append r b (c ++ joined bs) s h)
