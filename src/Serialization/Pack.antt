-- ===== src/Serialization/Pack.antt =====
-- `struct.pack` and `struct.unpack` of unsigned big-endian integers, `int.to_bytes` and
-- `int.from_bytes`, as skepticoin/serialization.py, datatypes.py and signing.py use them.
use skepticoin.Serialization.Stream.{◌>>=◌, Reader, pure, safe_read}
use skepticoin.Prelude.{Bytes, [], if◌then◌else◌, ltb, suc, zero, ℕ, ◌%◌, ◌*◌, ◌+◌, ◌/◌, ◌^◌, ◌∷◌}
use skepticoin.Prelude.Int.{negsuc, pos, ℤ}
use skepticoin.Prelude.Result.{Result, err, ok, struct_error}

-- The low `w` bytes of a number, the highest first.
unfoldable pub to_be : ℕ → ℕ → Bytes
to_be zero n = []
to_be (suc w) n = (n / 256 ^ w % 256) ∷ to_be w n

unfoldable pub from_be : ℕ → Bytes → ℕ
from_be acc [] = acc
from_be acc (b ∷ bs) = from_be (acc * 256 + b) bs

-- `struct.pack` with a format of `w` bytes: an integer out of its range is a struct.error.
unfoldable pub pack : ℕ → ℕ → Result Bytes
pack w n = if ltb n (256 ^ w) then ok (to_be w n) else err struct_error

unfoldable pub pack_ℤ : ℕ → ℤ → Result Bytes
pack_ℤ w (pos n) = pack w n
pack_ℤ w (negsuc n) = err struct_error

unfoldable pub read_be : ℕ → Reader ℕ
read_be w = do b ← safe_read w; pure (from_be 0 b)
