-- ===== src/Consensus/Weight.antt =====
-- core/src/consensus.rs: graph_weight and secondary_pow_ratio.
use grin.Prelude.{ℕ, ◌+◌, ◌-◌, ◌*◌, ◌/◌, ◌%◌, ◌^◌, ◌&&◌, leb, ◌==◌, if◌then◌else◌, mul64, shl64}
use grin.Global.Chain.{ChainTypes, base_edge_bits}
use grin.Consensus.Params.{year_height, week_height}

-- The edge bits that count: those of a graph with 31 edge bits run down after a year. A subtraction on ℕ stops
-- at 0, as `saturating_sub` does, and the other one is guarded by the test.
unfoldable pub xpr_edge_bits : ℕ → ℕ → ℕ
xpr_edge_bits height edge_bits =
    if edge_bits == 31 && leb year_height height
    then edge_bits - (1 + (height - year_height) / week_height)
    else edge_bits

-- The difference of the edge bits is one of u8.
unfoldable pub graph_weight : ChainTypes → ℕ → ℕ → ℕ
unfolding xpr_edge_bits
graph_weight chain height edge_bits =
    mul64 (shl64 2 ((edge_bits + 2 ^ 8 - base_edge_bits chain) % 2 ^ 8))
      (xpr_edge_bits height edge_bits)

unfoldable pub secondary_pow_ratio : ℕ → ℕ
secondary_pow_ratio height = 90 - height / (2 * year_height / 90)
