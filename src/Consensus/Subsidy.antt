-- ===== src/Consensus/Subsidy.antt =====
-- The money that `get_block_subsidy` of skepticoin/consensus.py creates up to a height.
use native.Mathlib.Nat.{add-zero, add-suc}
use skepticoin.Consensus.{get_block_subsidy}
use skepticoin.Params.{initial_subsidy, subsidy_halving_interval}
use skepticoin.Prelude.{if◌then◌else◌, leb, refl, suc, zero, ℕ, ◌%◌, ◌*◌, ◌+◌, ◌/◌, ◌^◌, ◌≡◌}
use skepticoin.Params.{max_sashimi}
use skepticoin.Prelude.{Bool-cases, ap, arith, inl, inr, ltb, ◌≤◌, ◌⊎◌}
use mathlib.Core.Path.{subst}
use skepticoin.Prelude.{leb→le, ◌-◌, ◌∙◌}

-- The subsidies of the blocks below a height.
unfoldable pub supply : ℕ → ℕ
supply zero = 0
supply (suc h) = supply h + get_block_subsidy h

-- The subsidy in epoch `k`, and the money that the epochs before `k` create.
unfoldable pub epoch_subsidy : ℕ → ℕ
epoch_subsidy k = if leb 64 k then 0 else initial_subsidy / 2 ^ k

unfoldable pub epochs_supply : ℕ → ℕ
epochs_supply zero = 0
epochs_supply (suc k) = epochs_supply k + subsidy_halving_interval * epoch_subsidy k

subsidy_of_epoch : (h : ℕ) → get_block_subsidy h ≡ epoch_subsidy (h / subsidy_halving_interval)
unfolding get_block_subsidy epoch_subsidy
subsidy_of_epoch h = refl

-- The next height is in the same epoch, or the first of the next one.
next_height :
    (h : ℕ)
    → ((suc h / subsidy_halving_interval ≡ h / subsidy_halving_interval)
        × (suc h % subsidy_halving_interval ≡ h % subsidy_halving_interval + 1))
      ⊎ ((suc h / subsidy_halving_interval ≡ suc (h / subsidy_halving_interval))
          × (suc h % subsidy_halving_interval ≡ 0)
          × (h % subsidy_halving_interval + 1 ≡ subsidy_halving_interval))
next_height h =
    elim (Bool-cases (ltb (h % subsidy_halving_interval + 1) subsidy_halving_interval)) [
      | inl e ↦ inl (ground (arith, e))
      | inr e ↦ inr (ground (arith, e))
    ]

abbrev supply_formula : ℕ → ℕ → ℕ
supply_formula k r = epochs_supply k + r * epoch_subsidy k

epochs_supply-suc :
    (k : ℕ) → epochs_supply (suc k) ≡ epochs_supply k + subsidy_halving_interval * epoch_subsidy k
unfolding epochs_supply
epochs_supply-suc k = refl

supply_at :
    (h : ℕ)
    → supply h ≡ supply_formula (h / subsidy_halving_interval) (h % subsidy_halving_interval)
unfolding supply
supply_at zero = rw epochs_supply_zero (omega arith)
  where
    epochs_supply_zero : epochs_supply (0 / subsidy_halving_interval) ≡ 0
    epochs_supply_zero = unfold epochs_supply in refl
supply_at (suc h) = elim (next_height h) [
  | inl (same, more) ↦ rw (same, more, subsidy_of_epoch h) (omega (arith, supply_at h))
  | inr (next, first, full) ↦
      rw (next, first, subsidy_of_epoch h)
        (omega (
          arith,
          supply_at h,
          epochs_supply-suc (h / subsidy_halving_interval),
          ap (λ (t : ℕ). t * epoch_subsidy (h / subsidy_halving_interval)) full,
        ))
]

epochs_supply_64 : epochs_supply 64 ≡ max_sashimi
unfolding epochs_supply epoch_subsidy
epochs_supply_64 = refl

epochs_supply_mono : (d k : ℕ) → epochs_supply k ≤ epochs_supply (k + d)
epochs_supply_mono zero k = rw add-zero (omega arith)
epochs_supply_mono (suc d) k =
    rw add-suc (omega (arith, epochs_supply_mono d k, epochs_supply-suc (k + d)))

no_subsidy_after : (d : ℕ) → epoch_subsidy (64 + d) ≡ 0
unfolding epoch_subsidy
no_subsidy_after d = ground arith

epochs_supply_after : (d : ℕ) → epochs_supply (64 + d) ≡ max_sashimi
epochs_supply_after zero = epochs_supply_64
epochs_supply_after (suc d) =
    rw add-suc
      (epochs_supply-suc (64 + d) ∙ rw (no_subsidy_after d, epochs_supply_after d) (omega arith))

epochs_supply_limit : (k : ℕ) → epochs_supply k ≤ max_sashimi
epochs_supply_limit k = elim (Bool-cases (leb k 64)) [
  | inl below ↦ omega (
    arith,
    subst (λ n. epochs_supply k ≤ epochs_supply n) {x = k + (64 - k)} {y = 64}
        (omega (arith, leb→le k 64 below)) (epochs_supply_mono (64 - k) k),
    epochs_supply_64,
  )
  | inr above ↦
      subst (λ n. epochs_supply n ≤ max_sashimi) {x = 64 + (k - 64)} {y = k} (ground arith)
        (omega (arith, epochs_supply_after (k - 64)))
]

-- The subsidies of the blocks below any height add up to at most MAX_SASHIMI.
pub supply-le-max_sashimi : (h : ℕ) → supply h ≤ max_sashimi
supply-le-max_sashimi h =
    let k = h / subsidy_halving_interval in
    let part : h % subsidy_halving_interval * epoch_subsidy k
        ≤ subsidy_halving_interval * epoch_subsidy k =
      grind arith in
    omega (arith, supply_at h, epochs_supply-suc k, epochs_supply_limit (suc k), part)
