-- ===== src/Serialization.antt =====
-- skepticoin/serialization.py. A `BinaryIO` that is read is the rest of the stream, which a reader
-- takes and gives back; one that is written is the bytes that the writer adds to it.
pub mod Stream
pub mod Pack
pub mod PackLaws
pub mod Vlq
pub mod VlqLaws
pub mod RoundTrip
pub mod ListLaws
use skepticoin.Serialization.Stream.{◌>>=◌, ◌>>◌, Reader, pure}
use skepticoin.Serialization.Vlq.{stream_serialize_vlq, stream_deserialize_vlq}
use skepticoin.Prelude.{Bytes, List, [], length, suc, zero, ℕ, ◌∷◌}
use skepticoin.Prelude.Result.{Result, err, ok, ◌then_write◌}

-- `class Serializable`: what a subclass implements. Its `serialize` and `deserialize` follow.
pub record Serializable (A : Type 0) : Type 0 where
  pub stream_serialize : A → Result Bytes
  pub stream_deserialize : Reader A

module _ {A : Type 0} ⦃s : Serializable A⦄ where
  unfoldable pub serialize : A → Result Bytes
  serialize a = s.stream_serialize a

  -- What follows the value in the bytes is left unread.
  unfoldable pub deserialize : Bytes → Result A
  deserialize b = elim (s.stream_deserialize b) [ ok r ↦ ok r.0 | err e ↦ err e ]

  unfoldable pub write_all : List A → Result Bytes
  write_all [] = ok []
  write_all (x ∷ xs) = s.stream_serialize x then_write write_all xs

  unfoldable pub stream_serialize_list : List A → Result Bytes
  stream_serialize_list lst = stream_serialize_vlq (length lst) then_write write_all lst

  unfoldable pub read_n : ℕ → Reader (List A)
  read_n zero = pure []
  read_n (suc n) = do x ← s.stream_deserialize; xs ← read_n n; pure (x ∷ xs)

  unfoldable pub stream_deserialize_list : Reader (List A)
  stream_deserialize_list = do n ← stream_deserialize_vlq; read_n n

  unfoldable pub serialize_list : List A → Result Bytes
  serialize_list lst = stream_serialize_list lst

  -- It reads one element of the class, not a list of them.
  unfoldable pub deserialize_list : Bytes → Result A
  deserialize_list b = elim (s.stream_deserialize b) [ ok r ↦ ok r.0 | err e ↦ err e ]
