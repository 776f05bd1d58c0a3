-- ===== src/Consensus/Target.antt =====
-- The target that `calculate_new_target` of skepticoin/consensus.py computes.
use skepticoin.Consensus.{calculate_new_target, floor_div, target_bytes}
use Prim.Native.Nat.{min}
use skepticoin.Params.{desired_target_readjustment_timespan}
use skepticoin.Prelude.{Bytes, length, ℕ, ◌*◌, ◌-◌, ◌/◌, ◌^◌, ◌≡◌}
use skepticoin.Prelude.Int.{pos}
use skepticoin.Prelude.Result.{ok}
use skepticoin.Serialization.Pack.{from_be}
use skepticoin.Prelude.{arith, if◌then◌else◌, ltb, refl, ◌∙◌}
use skepticoin.Serialization.Pack.{to_be}
use skepticoin.Serialization.PackLaws.{from_be-to_be, length-to_be}

target_bytes_lem :
    (n : ℕ)
    → (r : Bytes) × (target_bytes (pos n) ≡ ok r)
      × (length r ≡ 32)
      × (from_be 0 r ≡ min n (2 ^ 256 - 1))
unfolding target_bytes
target_bytes_lem n =
    let value = if ltb (2 ^ 256 - 1) n then 2 ^ 256 - 1 else n in
    let small : value ≡ min n (2 ^ 256 - 1) = ground arith in
    (
      to_be 32 value,
      refl,
      length-to_be 32 value,
      from_be-to_be 32 value (omega (arith, small)) ∙ small,
    )

-- The target over a period that is not negative always fits 32 bytes: it is the old target times
-- the period by the timespan that is wanted, rounded down, and at most 2 ^ 256 - 1.
pub calculate_new_target-capped :
    (previous : Bytes) (t : ℕ)
    → (r : Bytes) × (calculate_new_target previous (pos t) ≡ ok r)
      × (length r ≡ 32)
      × (from_be 0 r
          ≡ min (from_be 0 previous * t / desired_target_readjustment_timespan) (2 ^ 256 - 1))
unfolding calculate_new_target floor_div
calculate_new_target-capped previous t = target_bytes_lem _
