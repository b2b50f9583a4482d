-- ===== src/Pow/Params.antt =====
-- core/src/pow/common.rs: the parameters of a graph, and what its checks report.
use grin.Prelude.{ℕ, shl64, shr64, sub64, mul64, add64, u64_max, leading_zeros, bit_and}
use grin.Pow.SipHash.{SipHash24, siphash24}

pub record CuckooParams : Type 0 where
  pub proof_size : ℕ
  pub num_edges : ℕ
  pub siphash_keys : SipHash24
  pub edge_mask : ℕ
  pub node_mask : ℕ

unfoldable pub new_params : ℕ → ℕ → ℕ → CuckooParams
new_params edge_bits node_bits proof_size = record {
  proof_size = proof_size;
  num_edges = shl64 1 edge_bits;
  siphash_keys = record { v0 = 0; v1 = 0; v2 = 0; v3 = 0 };
  edge_mask = sub64 (shl64 1 edge_bits) 1;
  node_mask = sub64 (shl64 1 node_bits) 1;
}

unfoldable pub sipnode : CuckooParams → ℕ → ℕ → ℕ
sipnode params edge uorv =
    bit_and (siphash24 (params.siphash_keys) (add64 (mul64 2 edge) uorv)) (params.node_mask)

-- The texts of Error::Verification.
pub data PowError : Type 0 where
  wrong_cycle_length : PowError
  edge_too_big : PowError
  edges_not_ascending : PowError
  edges_not_balanced : PowError
  endpoints_do_not_match_up : PowError
  branch_in_cycle : PowError
  cycle_dead_ends : PowError
  cycle_too_short : PowError

-- The size rounded up to a power of two, less one.
abbrev pub mask_of : ℕ → ℕ
mask_of size = shr64 u64_max (leading_zeros size)

-- The two endpoints in one hash of a block.
abbrev pub low_node : ℕ → ℕ → ℕ
low_node node_mask edge = bit_and edge node_mask

abbrev pub high_node : ℕ → ℕ → ℕ
high_node node_mask edge = bit_and (shr64 edge 32) node_mask
