-- ===== src/Consensus/Params.antt =====
-- core/src/consensus.rs: the constants. One that shares its name with a function has `_const`.
use grin.Prelude.{ℕ, ◌-◌, ◌*◌, ◌/◌, ◌^◌, saturating_add64}

abbrev pub grin_base : ℕ
grin_base = 1_000_000_000

abbrev pub block_time_sec : ℕ
block_time_sec = 60

abbrev pub reward_const : ℕ
reward_const = block_time_sec * grin_base

abbrev pub hour_sec : ℕ
hour_sec = 60 * 60

abbrev pub hour_height : ℕ
hour_height = hour_sec / block_time_sec

abbrev pub day_height : ℕ
day_height = 24 * hour_height

abbrev pub week_height : ℕ
week_height = 7 * day_height

abbrev pub year_height : ℕ
year_height = 52 * week_height

abbrev pub coinbase_maturity_const : ℕ
coinbase_maturity_const = day_height

abbrev pub proofsize_const : ℕ
proofsize_const = 42

abbrev pub default_min_edge_bits : ℕ
default_min_edge_bits = 31

abbrev pub second_pow_edge_bits : ℕ
second_pow_edge_bits = 29

abbrev pub base_edge_bits_const : ℕ
base_edge_bits_const = 24

abbrev pub cut_through_horizon_const : ℕ
cut_through_horizon_const = week_height

abbrev pub state_sync_threshold_const : ℕ
state_sync_threshold_const = 2 * day_height

abbrev pub input_weight : ℕ
input_weight = 1

abbrev pub output_weight : ℕ
output_weight = 21

abbrev pub kernel_weight : ℕ
kernel_weight = 3

abbrev pub max_block_weight_const : ℕ
max_block_weight_const = 40_000

abbrev pub hard_fork_interval : ℕ
hard_fork_interval = year_height / 2

abbrev pub testnet_first_hard_fork : ℕ
testnet_first_hard_fork = 185_040

abbrev pub testnet_second_hard_fork : ℕ
testnet_second_hard_fork = 298_080

abbrev pub testnet_third_hard_fork : ℕ
testnet_third_hard_fork = 552_960

abbrev pub testnet_fourth_hard_fork : ℕ
testnet_fourth_hard_fork = 642_240

abbrev pub testing_hard_fork_interval : ℕ
testing_hard_fork_interval = 3

abbrev pub dma_window : ℕ
dma_window = hour_height

abbrev pub wtema_half_life : ℕ
wtema_half_life = 4 * hour_sec

abbrev pub block_time_window : ℕ
block_time_window = dma_window * block_time_sec

abbrev pub clamp_factor : ℕ
clamp_factor = 2

abbrev pub dma_damp_factor : ℕ
dma_damp_factor = 3

abbrev pub ar_scale_damp_factor : ℕ
ar_scale_damp_factor = 13

abbrev pub c32_graph_weight : ℕ
c32_graph_weight = 2 * 2 ^ (32 - base_edge_bits_const) * 32

abbrev pub min_dma_difficulty : ℕ
min_dma_difficulty = dma_damp_factor

abbrev pub min_ar_scale : ℕ
min_ar_scale = ar_scale_damp_factor

abbrev pub unit_difficulty : ℕ
unit_difficulty = 2 * 2 ^ (second_pow_edge_bits - base_edge_bits_const) * second_pow_edge_bits

abbrev pub initial_difficulty : ℕ
initial_difficulty = 1_000_000 * unit_difficulty

unfoldable pub reward : ℕ → ℕ
reward fee = saturating_add64 reward_const fee
