-- ===== src/Tests/Sizes.antt =====
-- The theorems on numbers and byte strings at concrete inputs.
use Prim.Native.Nat.{min}
use skepticoin.Consensus.{calculate_new_target}
use skepticoin.Consensus.Subsidy.{supply, supply-le-max_sashimi}
use skepticoin.Consensus.Target.{calculate_new_target-capped}
use skepticoin.Humans.{computer, computer-human, human}
use skepticoin.Params.{desired_target_readjustment_timespan, max_sashimi}
use skepticoin.Pow.{select_block_slice}
use skepticoin.Pow.Sample.{select_block_slice-length}
use skepticoin.Prelude.{Bytes, [], arith, length, replicate, ◌*◌, ◌-◌, ◌/◌, ◌^◌, ◌∷◌, ◌≡◌, ◌≤◌}
use skepticoin.Prelude.Int.{pos}
use skepticoin.Prelude.Result.{ok}
use skepticoin.Serialization.Pack.{from_be}
use skepticoin.Prelude.{All, refl, suc, zero, ℕ, ◌<◌}
use skepticoin.Wallet.{parse_address}
use skepticoin.Wallet.Address.{address_of, parse_address-address_of}

supply-le-max_sashimi_example : supply 3_000_000 ≤ max_sashimi
supply-le-max_sashimi_example = supply-le-max_sashimi 3_000_000

computer-human_example : computer (human (0 ∷ 171 ∷ 255 ∷ [])) ≡ ok (0 ∷ 171 ∷ 255 ∷ [])
computer-human_example =
    computer-human (0 ∷ 171 ∷ 255 ∷ []) (omega arith, (omega arith, (omega arith, tt)))

select_block_slice-length_example :
    (r : Bytes) × (select_block_slice (replicate 32 5) (1 ∷ 2 ∷ 3 ∷ []) 7 ≡ ok r) × (length r ≡ 7)
select_block_slice-length_example =
    select_block_slice-length (replicate 32 5) (1 ∷ 2 ∷ 3 ∷ []) 7 (omega arith)

calculate_new_target-capped_example :
    (r : Bytes) × (calculate_new_target (replicate 32 255) (pos 1_300_000) ≡ ok r)
    × (length r ≡ 32)
    × (from_be 0 r
        ≡ min
            (from_be 0 (replicate 32 255) * 1_300_000 / desired_target_readjustment_timespan)
            (2 ^ 256 - 1))
calculate_new_target-capped_example = calculate_new_target-capped (replicate 32 255) 1_300_000

parse_address-address_of_example : parse_address (address_of (replicate 64 7)) ≡ ok (replicate 64 7)
parse_address-address_of_example = parse_address-address_of (replicate 64 7) refl (sevens 64)
  where
    sevens : (n : ℕ) → All (λ b. b < 256) (replicate n 7)
    sevens zero = tt
    sevens (suc n) = (omega arith, sevens n)
