-- ===== src/Serialization/Vlq.antt =====
-- Variable-length quantities of skepticoin/serialization.py: groups of seven bits, the highest
-- first, with the top bit set on all but the last.
use skepticoin.Serialization.Stream.{Reader}
use skepticoin.Serialization.Pack.{pack}
use skepticoin.Prelude.{
  Bytes, [], false, if◌then◌else◌, ltb, suc, true, zero, ℕ, ◌%◌, ◌*◌, ◌+◌, ◌/◌, ◌==◌, ◌^◌, ◌∷◌,
}
use skepticoin.Prelude.Result.{Result, err, ok, truncation, ◌then_write◌}

-- Python's `int.bit_length`; a number has fewer bits than its own value plus one.
unfoldable pub bit_length_from : ℕ → ℕ → ℕ
bit_length_from zero n = 0
bit_length_from (suc fuel) n = elim (n == 0) [
  | true ↦ 0
  | false ↦ suc (bit_length_from fuel (n / 2))
]

unfoldable pub bit_length : ℕ → ℕ
bit_length n = bit_length_from n n

-- The rounds of the loop for j = count - 1, …, 0; `modulus` is 0 in the first.
unfoldable pub write_groups : ℕ → ℕ → ℕ → Result Bytes
write_groups zero modulus i = ok []
write_groups (suc j) modulus i =
    let div = 128 ^ j in
    pack 1 ((if modulus == 0 then i else i % modulus) / div + (if ltb 0 j then 128 else 0))
    then_write write_groups j div i

unfoldable pub stream_serialize_vlq : ℕ → Result Bytes
stream_serialize_vlq i = write_groups (bit_length i / 7 + 1) 0 i

-- The rounds of `while True`, one for each byte that is read.
unfoldable pub read_groups : ℕ → Reader ℕ
read_groups result [] = err truncation
read_groups result (b ∷ f) =
    let next = read_groups ((result + b % 128) * 128) f in
    if ltb b 128 then ok (result + b % 128, f) else next

unfoldable pub stream_deserialize_vlq : Reader ℕ
stream_deserialize_vlq = read_groups 0
