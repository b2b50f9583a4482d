-- ===== src/Global/Limits.antt =====
-- core/src/global.rs: the parameters computed from the graph weights and the block weights.
use grin.Prelude.{ℕ, ◌+◌, ◌-◌, ◌*◌, ◌/◌, ◌%◌, ◌^◌}
use grin.Global.Chain.{
  ChainTypes, automated_testing_min_edge_bits, user_testing_min_edge_bits, proofsize,
  max_block_weight,
}
use grin.Consensus.Params.{second_pow_edge_bits, c32_graph_weight, output_weight, kernel_weight}
use grin.Consensus.Weight.{graph_weight}

-- `as u32` keeps the low 32 bits.
unfoldable pub initial_graph_weight : ChainTypes → ℕ
initial_graph_weight ChainTypes.automated_testing =
    graph_weight ChainTypes.automated_testing 0 automated_testing_min_edge_bits % 2 ^ 32
initial_graph_weight ChainTypes.user_testing =
    graph_weight ChainTypes.user_testing 0 user_testing_min_edge_bits % 2 ^ 32
initial_graph_weight ChainTypes.testnet =
    graph_weight ChainTypes.testnet 0 second_pow_edge_bits % 2 ^ 32
initial_graph_weight ChainTypes.mainnet =
    graph_weight ChainTypes.mainnet 0 second_pow_edge_bits % 2 ^ 32

unfoldable pub min_wtema_graph_weight : ChainTypes → ℕ
min_wtema_graph_weight ChainTypes.automated_testing =
    graph_weight ChainTypes.automated_testing 0 automated_testing_min_edge_bits
min_wtema_graph_weight ChainTypes.user_testing =
    graph_weight ChainTypes.user_testing 0 user_testing_min_edge_bits
min_wtema_graph_weight ChainTypes.testnet = graph_weight ChainTypes.testnet 0 second_pow_edge_bits
min_wtema_graph_weight ChainTypes.mainnet = c32_graph_weight

-- The subtraction saturates.
unfoldable pub max_tx_weight : ChainTypes → ℕ
max_tx_weight chain = max_block_weight chain - (output_weight + kernel_weight)

-- Proof::pack_len of core/src/pow/types.rs: the bytes of a packed proof.
unfoldable pub pack_len : ChainTypes → ℕ → ℕ
pack_len chain bit_width = (bit_width * proofsize chain + 7) / 8

unfoldable pub header_size_bytes : ChainTypes → ℕ → ℕ
header_size_bytes chain edge_bits =
    2 + 2 * 8 + 5 * 32 + 32 + 2 * 8 + (8 + 4 + 8 + 1 + pack_len chain edge_bits)
