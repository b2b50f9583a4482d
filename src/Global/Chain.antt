-- ===== src/Global/Chain.antt =====
-- core/src/global.rs: the chain types and the parameters that are a constant for each of them.
use grin.Prelude.{ℕ, ◌*◌, Bool, true, false}
use grin.Consensus.Params.{
  base_edge_bits_const, default_min_edge_bits, proofsize_const, coinbase_maturity_const,
  initial_difficulty, max_block_weight_const, cut_through_horizon_const, state_sync_threshold_const,
}

pub data ChainTypes : Type 0 where
  automated_testing user_testing testnet mainnet : ChainTypes

abbrev pub automated_testing_min_edge_bits : ℕ
automated_testing_min_edge_bits = 10

abbrev pub user_testing_min_edge_bits : ℕ
user_testing_min_edge_bits = 15

abbrev pub testing_max_block_weight : ℕ
testing_max_block_weight = 250

unfoldable pub min_edge_bits : ChainTypes → ℕ
min_edge_bits ChainTypes.automated_testing = automated_testing_min_edge_bits
min_edge_bits ChainTypes.user_testing = user_testing_min_edge_bits
min_edge_bits _ = default_min_edge_bits

unfoldable pub base_edge_bits : ChainTypes → ℕ
base_edge_bits ChainTypes.automated_testing = automated_testing_min_edge_bits
base_edge_bits ChainTypes.user_testing = user_testing_min_edge_bits
base_edge_bits _ = base_edge_bits_const

unfoldable pub proofsize : ChainTypes → ℕ
proofsize ChainTypes.automated_testing = 8
proofsize ChainTypes.user_testing = 42
proofsize _ = proofsize_const

unfoldable pub coinbase_maturity : ChainTypes → ℕ
coinbase_maturity ChainTypes.automated_testing = 3
coinbase_maturity ChainTypes.user_testing = 3
coinbase_maturity _ = coinbase_maturity_const

unfoldable pub initial_block_difficulty : ChainTypes → ℕ
initial_block_difficulty ChainTypes.automated_testing = 1
initial_block_difficulty ChainTypes.user_testing = 1
initial_block_difficulty ChainTypes.testnet = initial_difficulty
initial_block_difficulty ChainTypes.mainnet = initial_difficulty

unfoldable pub max_block_weight : ChainTypes → ℕ
max_block_weight ChainTypes.automated_testing = testing_max_block_weight
max_block_weight ChainTypes.user_testing = testing_max_block_weight
max_block_weight ChainTypes.testnet = max_block_weight_const
max_block_weight ChainTypes.mainnet = max_block_weight_const

unfoldable pub cut_through_horizon : ChainTypes → ℕ
cut_through_horizon ChainTypes.automated_testing = 20
cut_through_horizon ChainTypes.user_testing = 70
cut_through_horizon _ = cut_through_horizon_const

unfoldable pub state_sync_threshold : ChainTypes → ℕ
state_sync_threshold ChainTypes.automated_testing = 20
state_sync_threshold ChainTypes.user_testing = 20
state_sync_threshold _ = state_sync_threshold_const

unfoldable pub txhashset_archive_interval : ChainTypes → ℕ
txhashset_archive_interval ChainTypes.automated_testing = 10
txhashset_archive_interval ChainTypes.user_testing = 10
txhashset_archive_interval _ = 12 * 60

unfoldable pub is_production_mode : ChainTypes → Bool
is_production_mode ChainTypes.testnet = true
is_production_mode ChainTypes.mainnet = true
is_production_mode _ = false
