-- ===== src/Params.antt =====
-- skepticoin/params.py.
use skepticoin.Prelude.{Bytes, replicate, ℕ, ◌*◌, ◌/◌, ◌∷◌}

abbrev pub sashimi_per_coin : ℕ
sashimi_per_coin = 100_000_000

abbrev pub five : ℕ
five = 10 / 2

abbrev pub desired_block_timespan : ℕ
desired_block_timespan = 10 * 60 / five

abbrev pub blocks_between_target_readjustment : ℕ
blocks_between_target_readjustment = 2016 * five

abbrev pub desired_target_readjustment_timespan : ℕ
desired_target_readjustment_timespan = blocks_between_target_readjustment * desired_block_timespan

abbrev pub initial_subsidy : ℕ
initial_subsidy = 50 * sashimi_per_coin / five

abbrev pub subsidy_halving_interval : ℕ
subsidy_halving_interval = 210_000 * five

abbrev pub max_block_size : ℕ
max_block_size = 1_000_000 / five

abbrev pub max_coinbase_random_data_size : ℕ
max_coinbase_random_data_size = 200

abbrev pub max_sashimi : ℕ
max_sashimi = 2_099_999_986_350_000

-- `(1 << (8 * 31)).to_bytes(length=32, byteorder='big')`
abbrev pub initial_target : Bytes
initial_target = 1 ∷ replicate 31 0

abbrev pub max_future_block_time : ℕ
max_future_block_time = 30

abbrev pub chain_sample_count : ℕ
chain_sample_count = 8

abbrev pub chain_sample_size : ℕ
chain_sample_size = 4

abbrev pub chain_sample_total_size : ℕ
chain_sample_total_size = chain_sample_count * chain_sample_size
