-- ===== src/Network/Receiver.antt =====
-- `MessageReceiver` of skepticoin/networking/remote_peer.py: messages out of the bytes that a socket
-- hands over in pieces. An exception, also of the handling of a message,
-- ends it.
pub mod Rounds
pub mod Pieces
pub mod Frames
use skepticoin.Prelude.{Bytes, Bool, List, Option, none, some, ℕ}
use skepticoin.Prelude.Result.{Error, Result, err, ok, plain_exception, recursion, ◌>>=◌}
use skepticoin.Network.Params.{max_message_size}
use skepticoin.Prelude.{
  [], drop, false, if◌then◌else◌, leb, length, ltb, not, suc, take, true, zero, ◌&&◌, ◌++◌, ◌+◌,
  ◌∷◌,
}
use skepticoin.Prelude.Eq.{list_eq, nat_eq, ◌≟◌}
use skepticoin.Serialization.Pack.{from_be}

-- b'MAJI'
abbrev pub magic : Bytes
magic = b'M' ∷ b'A' ∷ b'J' ∷ b'I' ∷ []

pub record Receiver : Type 0 where
  pub buffer : Bytes
  pub magic_read : Bool
  pub len : Option ℕ

-- `MessageReceiver.__init__`
abbrev pub new_receiver : Receiver
new_receiver = record { buffer = []; magic_read = false; len = none }

unfoldable pub read_magic : Receiver → Result Receiver
read_magic r =
    if not r.magic_read && leb 4 (length r.buffer)
    then if take 4 r.buffer ≟ magic
      then ok (record r { buffer = drop 4 r.buffer; magic_read = true })
      else err plain_exception
    else ok r

unfoldable pub with_len : ℕ → Receiver → Result Receiver
with_len n r =
    if ltb max_message_size n
    then err plain_exception
    else ok (record r { buffer = drop 4 r.buffer; len = some n })

unfoldable pub read_len : Receiver → Result Receiver
read_len r = elim r.len [
  | some n ↦ ok r
  | none ↦ if leb 4 (length r.buffer) then with_len (from_be 0 (take 4 r.buffer)) r else ok r
]

-- The data of a message, if all of it is there.
unfoldable pub next_message : Receiver → Option Bytes × Receiver
next_message r = elim r.len [
  | none ↦ (none, r)
  | some n ↦
      if leb n (length r.buffer)
      then (
        some (take n r.buffer),
        record { buffer = drop n r.buffer; magic_read = false; len = none },
      )
      else (none, r)
]

-- One call of `receive`, up to its recursive call.
unfoldable pub receive_round : Receiver → Result (Option Bytes × Receiver)
receive_round r = do r1 ← read_magic r; r2 ← read_len r1; ok (next_message r2)

-- How `receive` ends: by an exception, on which the peer is disconnected, or with the receiver that
-- waits for more bytes.
pub data Ending : Type 0 where
  stopped : Error → Ending
  waiting : Receiver → Ending

abbrev pub with_bytes : Receiver → Bytes → Receiver
with_bytes r b = record r { buffer = r.buffer ++ b }

abbrev pub if_handled : {S : Type 0} → Result (Unit {0}) × S → (S → Ending × S) → Ending × S
if_handled (err e, s) again = (stopped e, s)
if_handled (ok u, s) again = again s

-- `handle_message_data`: what it does is a parameter here, a method on states of any kind, which
-- returns or raises.
module _ {S : Type 0} (handle_message_data : Bytes → S → Result (Unit {0}) × S) where
  abbrev pub after_round :
      Result (Option Bytes × Receiver) → S → (Receiver → S → Ending × S) → Ending × S
  after_round (err e) s again = (stopped e, s)
  after_round (ok (none, r)) s again = (waiting r, s)
  after_round (ok (some m, r)) s again = if_handled (handle_message_data m s) (again r)

  -- The recursion of `receive` on what is left in the buffer.
  unfoldable pub drain : ℕ → Receiver → S → Ending × S
  drain zero r s = (stopped recursion, s)
  drain (suc fuel) r s = after_round (receive_round r) s (drain fuel)

  -- A round that hands over a message has read the length, so more rounds than bytes are enough.
  unfoldable pub receive : Receiver → Bytes → S → Ending × S
  receive r b s = drain (length (r.buffer ++ b) + 9) (with_bytes r b) s

abbrev pub go_on : {S : Type 0} → Ending × S → (Receiver → S → Ending × S) → Ending × S
go_on (stopped e, s) next = (stopped e, s)
go_on (waiting r, s) next = next r s

module _ {S : Type 0} (handle_message_data : Bytes → S → Result (Unit {0}) × S) where
  -- A call for each piece, until one raises.
  unfoldable pub receive_all : Receiver → List Bytes → S → Ending × S
  receive_all r [] s = (waiting r, s)
  receive_all r (b ∷ bs) s =
      go_on (receive handle_message_data r b s) (λ r' s'. receive_all r' bs s')

abbrev pub joined : List Bytes → Bytes
joined [] = []
joined (b ∷ bs) = b ++ joined bs
