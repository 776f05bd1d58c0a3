-- ===== src/Pow.antt =====
-- skepticoin/pow.py: the samples that a proof of work takes from the chain.
pub mod Sample
use skepticoin.Crypto
use skepticoin.Datatypes.Wire.{transaction_wire}
use skepticoin.Crypto.{Crypto, sha256d}
use skepticoin.Datatypes.{Block}
use skepticoin.Datatypes.Wire.{serialize_block}
use skepticoin.Prelude.{
  Bytes, [], drop, if◌then◌else◌, length, ltb, suc, take, zero, ℕ, ◌%◌, ◌++◌, ◌-◌, ◌==◌,
}
use skepticoin.Prelude.Result.{Result, err, ok, recursion, zero_division, ◌>>=◌, ◌>>◌}
use skepticoin.Serialization.Pack.{from_be}

-- The first 8 bytes of the hash as a number, modulo the height; a height of 0 divides by zero.
unfoldable pub select_block_height : Bytes → ℕ → Result ℕ
select_block_height input_hash current_height =
    if current_height == 0
    then err zero_division
    else ok (from_be 0 (take 8 input_hash) % current_height)

-- The rounds of `while len(result) < length`. The first slice begins at `start`, the others at 0.
unfoldable pub slice_loop : ℕ → ℕ → Bytes → ℕ → Bytes → Result Bytes
slice_loop zero start block n result = if ltb (length result) n then err recursion else ok result
slice_loop (suc fuel) start block n result =
    let more = slice_loop fuel 0 block n (result ++ take (n - length result) (drop start block)) in
    if ltb (length result) n then more else ok result

-- Each round adds a byte at least, so as many rounds as bytes are enough.
unfoldable pub select_block_slice : Bytes → Bytes → ℕ → Result Bytes
select_block_slice hash block n =
    if length block == 0
    then err zero_division
    else slice_loop n (from_be 0 (take 4 (drop 8 hash)) % length block) block n []

module _ ⦃c : Crypto⦄ where
  unfoldable pub select_slice_from_chain : Bytes → ℕ → (ℕ → Result Block) → ℕ → Result Bytes
  select_slice_from_chain input_hash current_height get_block_by_height n = do
    h ← select_block_height input_hash current_height
    b ← get_block_by_height h
    serialized ← serialize_block b
    select_block_slice input_hash serialized n

  -- `for i in range(n)`, with `n - i` rounds to go; the last round makes no new hash.
  unfoldable pub slices_loop : ℕ → Bytes → ℕ → (ℕ → Result Block) → ℕ → Result Bytes
  slices_loop zero current_hash current_height get_block_by_height k = ok []
  slices_loop (suc n) current_hash current_height get_block_by_height k = do
    b ← select_slice_from_chain current_hash current_height get_block_by_height k
    rest ← slices_loop n (sha256d (current_hash ++ b)) current_height get_block_by_height k
    ok (b ++ rest)

  unfoldable pub select_n_k_length_slices_from_chain :
      Bytes → ℕ → (ℕ → Result Block) → ℕ → ℕ → Result Bytes
  select_n_k_length_slices_from_chain starting_hash current_height get_block_by_height n k =
      slices_loop n starting_hash current_height get_block_by_height k
