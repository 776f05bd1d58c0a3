-- ===== src/Network/Receiver/Frames.antt =====
-- The frames that `ConnectedRemotePeer.send_message` of skepticoin/networking/remote_peer.py puts
-- around messages, and their receiver.
use skepticoin.Network.Receiver.{Receiver, waiting}
use mathlib.Core.Path.{subst}
use skepticoin.Network.Params.{max_message_size}
use skepticoin.Network.Receiver.{magic, next_message, read_len, read_magic, receive_round, with_len}
use skepticoin.Prelude.{
  Bytes, List, [], append_assoc, arith, drop, drop-append_length, false, length, length-append,
  none, refl, some, take, take-append_length, true, ℕ, ◌++◌, ◌<◌, ◌^◌, ◌∷◌, ◌≡◌, ◌≤◌,
}
use skepticoin.Prelude.Result.{Result, ok, ◌then_write◌}
use skepticoin.Serialization.ListLaws.{then_write_ok}
use skepticoin.Serialization.Pack.{pack, to_be}
use skepticoin.Serialization.PackLaws.{from_be-to_be, length-to_be, pack_ok}
use skepticoin.Network.Receiver.{drain, joined, new_receiver, receive_all}
use skepticoin.Network.Receiver.Pieces.{
  drain_all, drain_all-hands, receive-drain_all, receive_all_pieces,
}
use skepticoin.Prelude.{All, ◌∙◌}
use skepticoin.Prelude.{sym}
use skepticoin.Prelude.Result.{ok-injective}
use skepticoin.Network.Receiver.{Ending, if_handled}
use skepticoin.Network.Receiver.Pieces.{if_handled_ext}

-- `MAGIC + struct.pack(b">I", len(data)) + data`
unfoldable pub frame : Bytes → Result Bytes
frame message = ok magic then_write pack 4 (length message) then_write ok message

unfoldable pub frames : List Bytes → Result Bytes
frames [] = ok []
frames (m ∷ ms) = frame m then_write frames ms

abbrev framed : Bytes → Bytes
framed m = magic ++ (to_be 4 (length m) ++ m)

frame_ok : (m : Bytes) → length m < 2 ^ 32 → frame m ≡ ok (framed m)
unfolding frame
frame_ok m h = then_write_ok {a = magic} refl (then_write_ok (pack_ok 4 (length m) h) refl)

take_of_length : {A : Type 0} (n : ℕ) (xs ys : List A) → length xs ≡ n → take n (xs ++ ys) ≡ xs
take_of_length n xs ys e = subst (λ k. take k (xs ++ ys) ≡ xs) e (take-append_length xs ys)

drop_of_length : {A : Type 0} (n : ℕ) (xs ys : List A) → length xs ≡ n → drop n (xs ++ ys) ≡ ys
drop_of_length n xs ys e = subst (λ k. drop k (xs ++ ys) ≡ ys) e (drop-append_length xs ys)

abbrev new_with : Bytes → Receiver
new_with b = record { buffer = b; magic_read = false; len = none }

read_magic-framed :
    (b : Bytes)
    → read_magic (new_with (magic ++ b)) ≡ ok (record { buffer = b; magic_read = true; len = none })
unfolding read_magic
read_magic-framed b = ground arith

read_len-framed :
    (m rest : Bytes)
    → length m ≤ max_message_size
    → read_len
        (record { buffer = to_be 4 (length m) ++ (m ++ rest); magic_read = true; len = none })
      ≡ ok (record { buffer = m ++ rest; magic_read = true; len = some (length m) })
unfolding read_len with_len
read_len-framed m rest h =
    let size = length-to_be 4 (length m) in
    let first = take_of_length 4 (to_be 4 (length m)) (m ++ rest) size in
    let later = drop_of_length 4 (to_be 4 (length m)) (m ++ rest) size in
    let value = from_be-to_be 4 (length m) (omega arith) in
    ground (arith, first, later, value, length-append (to_be 4 (length m)) (m ++ rest), size)

next_message-framed :
    (m rest : Bytes)
    → next_message (record { buffer = m ++ rest; magic_read = true; len = some (length m) })
      ≡ (some m, new_with rest)
unfolding next_message
next_message-framed m rest =
    ground (arith, length-append m rest, take-append_length m rest, drop-append_length m rest)

round-framed :
    (m rest : Bytes)
    → length m ≤ max_message_size
    → receive_round (new_with (framed m ++ rest)) ≡ ok (some m, new_with rest)
unfolding receive_round
round-framed m rest h = rw (append_assoc (to_be 4 (length m)) m rest) (
    rw
      (
        read_magic-framed (to_be 4 (length m) ++ (m ++ rest)),
        read_len-framed m rest h,
        next_message-framed m rest,
      )
      refl)

abbrev HasSize : Bytes → Type 0
HasSize m = length m ≤ max_message_size

all_framed : List Bytes → Bytes
all_framed [] = []
all_framed (m ∷ ms) = framed m ++ all_framed ms

frames_ok : (ms : List Bytes) → All HasSize ms → frames ms ≡ ok (all_framed ms)
unfolding frames all_framed
frames_ok [] h = refl
frames_ok (m ∷ ms) (h, hs) = then_write_ok (frame_ok m (omega arith)) (frames_ok ms hs)

module _ {S : Type 0} (handle : Bytes → S → Result (Unit {0}) × S) where
  -- The messages are handled one after another, until the handling of one raises; after all of them
  -- the receiver is as new.
  unfoldable pub handle_all : List Bytes → S → Ending × S
  handle_all [] s = (waiting new_receiver, s)
  handle_all (m ∷ ms) s = if_handled (handle m s) (handle_all ms)

  drain_all-framed :
      (ms : List Bytes) (s : S)
      → All HasSize ms
      → drain_all handle (new_with (all_framed ms)) s ≡ handle_all ms s
  unfolding all_framed handle_all
  drain_all-framed [] s h = unfold drain receive_round read_magic read_len next_message in refl
  drain_all-framed (m ∷ ms) s (h, hs) =
      drain_all-hands handle (new_with (framed m ++ all_framed ms)) (new_with (all_framed ms)) m s
        (round-framed m (all_framed ms) h)
      ∙ if_handled_ext (handle m s) _ _ (λ s'. drain_all-framed ms s' hs)

  -- Put messages of up to MAX_MESSAGE_SIZE bytes into frames and cut the bytes of the frames into any
  -- pieces, at least one. A new receiver that gets the pieces one after another does what handling
  -- these messages one after another does: it hands over each once and in order, stops when the
  -- handling of one raises, and is as new when none does.
  pub receive_all-frames :
      (ms : List Bytes) (b : Bytes) (bs : List Bytes) (s : S)
      → All HasSize ms
      → frames ms ≡ ok (b ++ joined bs)
      → receive_all handle new_receiver (b ∷ bs) s ≡ handle_all ms s
  receive_all-frames ms b bs s h e =
      let same : b ++ joined bs ≡ all_framed ms = ok-injective (sym e ∙ frames_ok ms h) in
      receive_all_pieces handle new_receiver b bs s (λ q. refl)
      ∙ receive-drain_all handle new_receiver (b ++ joined bs) s
      ∙ rw same (drain_all-framed ms s h)
