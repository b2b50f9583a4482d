-- ===== src/Pow/Difficulty.antt =====
-- core/src/pow/types.rs: the difficulty of a proof of work. A Difficulty is its number.
use grin.Prelude.{
  ℕ, ◌*◌, ◌/◌, ◌%◌, ◌^◌, min, max, List, Bool, not, ◌&&◌, leb, ◌==◌, if◌then◌else◌, u64_max,
  replicate,
}
use grin.Global.Chain.{ChainTypes, min_edge_bits, proofsize}
use grin.Global.Limits.{initial_graph_weight, min_wtema_graph_weight}
use grin.Consensus.Params.{second_pow_edge_bits, min_dma_difficulty}
use grin.Consensus.Weight.{graph_weight}
use grin.Consensus.Difficulty.{from_num}

abbrev pub min_dma : ℕ
min_dma = min_dma_difficulty

abbrev pub min_wtema : ChainTypes → ℕ
min_wtema chain = min_wtema_graph_weight chain

abbrev pub unit_difficulty : ChainTypes → ℕ
unit_difficulty chain = initial_graph_weight chain

pub record Proof : Type 0 where
  pub edge_bits : ℕ
  pub nonces : List ℕ

abbrev pub zero_proof : ChainTypes → ℕ → Proof
zero_proof chain proof_size = record {
  edge_bits = min_edge_bits chain;
  nonces = replicate proof_size 0;
}

pub record ProofOfWork : Type 0 where
  pub total_difficulty : ℕ
  pub secondary_scaling : ℕ
  pub nonce : ℕ
  pub proof : Proof

abbrev pub default_pow : ChainTypes → ProofOfWork
default_pow chain = record {
  total_difficulty = min_dma;
  secondary_scaling = 1;
  nonce = 0;
  proof = zero_proof chain (proofsize chain);
}

-- At least the bits of the chain's primary graphs, and not those of the secondary one.
abbrev pub is_primary : ChainTypes → ProofOfWork → Bool
is_primary chain pow =
    not (pow.proof.edge_bits == second_pow_edge_bits)
    && leb (min_edge_bits chain) (pow.proof.edge_bits)

abbrev pub is_secondary : ProofOfWork → Bool
is_secondary pow = pow.proof.edge_bits == second_pow_edge_bits

-- The hash of a packed proof is blake2b's, of which the first 8 bytes count.
module _ (hash_to_u64 : Proof → ℕ) where
  unfoldable pub scaled_difficulty : Proof → ℕ → ℕ
  scaled_difficulty proof scale = min (scale * 2 ^ 64 % 2 ^ 128 / max 1 (hash_to_u64 proof)) u64_max

  abbrev pub from_proof_adjusted : ChainTypes → ℕ → Proof → ℕ
  from_proof_adjusted chain height proof =
      from_num (scaled_difficulty proof (graph_weight chain height (proof.edge_bits)))

  abbrev pub from_proof_scaled : Proof → ℕ → ℕ
  from_proof_scaled proof scaling = from_num (scaled_difficulty proof scaling)

  unfoldable pub to_difficulty : ChainTypes → ℕ → ProofOfWork → ℕ
  to_difficulty chain height pow =
      if pow.proof.edge_bits == second_pow_edge_bits
      then from_proof_scaled (pow.proof) (pow.secondary_scaling)
      else from_proof_adjusted chain height (pow.proof)

  unfoldable pub to_unscaled_difficulty : ProofOfWork → ℕ
  to_unscaled_difficulty pow = from_num (scaled_difficulty (pow.proof) 1)
