-- ===== src/Consensus/Schedule.antt =====
-- core/src/consensus.rs: how the header version and the graph weight develop with the height.
use grin.Prelude.{ℕ, ◌+◌, ◌-◌, ◌*◌, ◌%◌, ◌^◌, ◌≤◌, ◌<◌, ◌≡◌, ◌≢◌, arith, IsU64, shl64}
use native.Mathlib.Nat.{mul-le-mul_left}
use grin.Global.Chain.{ChainTypes, base_edge_bits}
use grin.Consensus.Params.{hard_fork_interval, testing_hard_fork_interval, year_height, week_height}
use grin.Consensus.Version.{header_version}
use grin.Consensus.Weight.{graph_weight, xpr_edge_bits}

-- The height at which the u16 of the version would wrap round.
unfoldable pub wrap_height : ChainTypes → ℕ
wrap_height ChainTypes.mainnet = 65535 * hard_fork_interval
wrap_height ChainTypes.testnet = 2 ^ 64
wrap_height ChainTypes.automated_testing = 65535 * testing_hard_fork_interval
wrap_height ChainTypes.user_testing = 65535 * testing_hard_fork_interval

-- Below the height at which the u16 of its schedule wraps round, the version that a header must
-- have never falls, and it is one of 1 to 5.
pub header_version_mono :
    (chain : ChainTypes) (low high : ℕ)
    → low ≤ high
    → high < wrap_height chain
    → (header_version chain low ≤ header_version chain high)
      × (1 ≤ header_version chain low)
      × (header_version chain high ≤ 5)
unfolding header_version wrap_height
header_version_mono ChainTypes.mainnet low high h b = ground arith
header_version_mono ChainTypes.testnet low high h b = ground arith
header_version_mono ChainTypes.automated_testing low high h b = ground arith
header_version_mono ChainTypes.user_testing low high h b = ground arith

-- The bits that count never rise with the height, and are at most those of the graph.
pub xpr_edge_bits_mono :
    (low high edge_bits : ℕ)
    → low ≤ high
    → (xpr_edge_bits high edge_bits ≤ xpr_edge_bits low edge_bits)
      × (xpr_edge_bits low edge_bits ≤ edge_bits)
unfolding xpr_edge_bits
xpr_edge_bits_mono low high edge_bits h = ground arith

-- Where the full weight fits a u64, the weight of a graph never rises with the height.
pub graph_weight_mono :
    (chain : ChainTypes) (low high edge_bits : ℕ)
    → low ≤ high
    → IsU64 (shl64 2 ((edge_bits + 256 - base_edge_bits chain) % 256) * edge_bits)
    → graph_weight chain high edge_bits ≤ graph_weight chain low edge_bits
unfolding graph_weight
graph_weight_mono chain low high edge_bits h fits =
    let w = shl64 2 ((edge_bits + 256 - base_edge_bits chain) % 256) in
    let (falls, bound) = xpr_edge_bits_mono low high edge_bits h in
    omega (arith, mul-le-mul_left w falls, mul-le-mul_left w bound)

-- A graph with 31 edge bits weighs nothing from thirty weeks after the first year on, and any other graph has
-- the weight that it had at the start.
pub graph_weight_expiry :
    (chain : ChainTypes) (height edge_bits : ℕ)
    → year_height + 30 * week_height ≤ height
    → edge_bits ≢ 31
    → (graph_weight chain height 31 ≡ 0)
      × (graph_weight chain height edge_bits ≡ graph_weight chain 0 edge_bits)
unfolding graph_weight xpr_edge_bits
graph_weight_expiry chain height edge_bits h n = (ground arith, ground arith)
