-- ===== src/Serialization/ListLaws.antt =====
-- Lists of values, written and read back (skepticoin/serialization.py).
use skepticoin.Serialization.Stream.{pure}
use skepticoin.Serialization.{
  Serializable, write_all, read_n, stream_serialize_list, stream_deserialize_list,
}
use skepticoin.Prelude.{All, Bytes, List, [], length, map, refl, ◌++◌, ◌∷◌, ◌≡◌}
use skepticoin.Prelude.Result.{Result, ok, ◌then_write◌}
use skepticoin.Serialization.RoundTrip.{Reads, Reads-bind, Reads-last, RoundTrips}
use skepticoin.Serialization.Vlq.{stream_deserialize_vlq}
use skepticoin.Serialization.VlqLaws.{vlq-RoundTrips}

pub then_write_ok :
    {m k : Result Bytes} {a b : Bytes} → m ≡ ok a → k ≡ ok b → (m then_write k) ≡ ok (a ++ b)
then_write_ok hm hk = rw (hm, hk)

module _ {A : Type 0} ⦃s : Serializable A⦄ (reload : A → A) where
  -- The element is written, and read back as `reload` of it.
  abbrev pub Reloads : A → Type 0
  Reloads x = RoundTrips (s.stream_serialize x) s.stream_deserialize (reload x)

  bytes_all : (xs : List A) → All Reloads xs → Bytes
  bytes_all [] h = []
  bytes_all (x ∷ xs) (h, hs) = h.bytes ++ bytes_all xs hs

  write_all_ok : (xs : List A) (h : All Reloads xs) → write_all xs ≡ ok (bytes_all xs h)
  unfolding write_all bytes_all
  write_all_ok [] h = refl
  write_all_ok (x ∷ xs) (h, hs) = then_write_ok h.writes (write_all_ok xs hs)

  read_n-Reads :
      (xs : List A) (h : All Reloads xs)
      → Reads (read_n (length xs)) (bytes_all xs h) (map reload xs)
  unfolding read_n bytes_all
  read_n-Reads [] h = record { at = λ rest. unfold pure in refl }
  read_n-Reads (x ∷ xs) (h, hs) =
      Reads-bind s.stream_deserialize _ h.reads
        (Reads-last (read_n (length xs)) (λ r. reload x ∷ r) (read_n-Reads xs hs))

  pub list-RoundTrips :
      (xs : List A)
      → All Reloads xs
      → RoundTrips (stream_serialize_list xs) stream_deserialize_list (map reload xs)
  unfolding stream_serialize_list stream_deserialize_list
  list-RoundTrips xs h =
      let v = vlq-RoundTrips (length xs) in
      record {
        bytes = v.bytes ++ bytes_all xs h;
        writes = then_write_ok v.writes (write_all_ok xs h);
        reads = Reads-bind stream_deserialize_vlq read_n v.reads (read_n-Reads xs h);
      }
