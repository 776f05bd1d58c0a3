-- ===== src/Pow/Sample.antt =====
-- The slices that `select_block_slice` of skepticoin/pow.py takes of a block.
use skepticoin.Pow.{slice_loop, select_block_slice}
use skepticoin.Prelude.{
  Bytes, [], length, take, drop, ltb, ℕ, zero, suc, ◌≡◌, ◌<◌, ◌≤◌, ◌+◌, ◌-◌, ◌++◌, arith,
  length-append, length-take, length-drop, Bool-cases, inl, inr, refl,
}
use Prim.Native.Nat.{min, ◌%◌}
use skepticoin.Prelude.Result.{ok}
use skepticoin.Prelude.{false, ◌==◌}
use skepticoin.Serialization.Pack.{from_be}

slice_loop_lem :
    (fuel start : ℕ) (block : Bytes) (n : ℕ) (result : Bytes)
    → start < length block
    → n ≤ length result + fuel
    → length result ≤ n
    → (r : Bytes) × (slice_loop fuel start block n result ≡ ok r) × (length r ≡ n)
unfolding slice_loop
slice_loop_lem zero start block n result h enough below =
    (result, ground (arith, enough), omega arith)
slice_loop_lem (suc fuel) start block n result h enough below =
    elim (Bool-cases (ltb (length result) n)) [
      | inr full ↦ (result, rw full refl, ground (arith, full))
      | inl more ↦
          (let next = result ++ take (n - length result) (drop start block) in
            let size : length next
                ≡ length result + min (n - length result) (length block - start) =
              rw (length-append, length-take, length-drop) refl in
            let (r, e, exact) =
              slice_loop_lem fuel 0 block n next (omega arith) (ground (arith, more, size))
                (ground (arith, more, size)) in
            (r, rw more e, exact))
    ]

nonzero : (n : ℕ) → 0 < n → (n == 0) ≡ false
nonzero n h = ground arith

-- A slice of a block that has any bytes is taken without an error, whatever the hash, and it has
-- exactly the length that was asked for.
pub select_block_slice-length :
    (hash block : Bytes) (n : ℕ)
    → 0 < length block
    → (r : Bytes) × (select_block_slice hash block n ≡ ok r) × (length r ≡ n)
unfolding select_block_slice
select_block_slice-length hash block n h = rw (nonzero (length block) h) (
    slice_loop_lem n (from_be 0 (take 4 (drop 8 hash)) % length block) block n [] (omega arith)
      (omega arith) (omega arith))
