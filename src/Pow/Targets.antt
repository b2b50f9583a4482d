-- ===== src/Pow/Targets.antt =====
-- core/src/pow/types.rs: which targets a proof of work reaches.
use native.Mathlib.Nat.{le-div_iff_mul-le}
use grin.Prelude.{
  ℕ, ◌*◌, ◌%◌, ◌^◌, ◌<◌, ◌≤◌, ◌≡◌, ◌↔◌, inl, inr, arith, max, ◌==◌, Bool-cases, if◌then◌else◌,
  u64_max,
}
use grin.Global.Chain.{ChainTypes}
use grin.Consensus.Params.{second_pow_edge_bits}
use grin.Consensus.Weight.{graph_weight}
use grin.Consensus.Difficulty.{from_num}
use grin.Pow.Difficulty.{Proof, ProofOfWork, scaled_difficulty, to_difficulty}

-- What the hash is measured against: the scaling of the block for a secondary proof, else the weight
-- of the graph.
abbrev pub scale_of : ChainTypes → ℕ → ProofOfWork → ℕ
scale_of chain height pow =
    if pow.proof.edge_bits == second_pow_edge_bits
    then pow.secondary_scaling
    else graph_weight chain height (pow.proof.edge_bits)

graph_weight-bound :
    (chain : ChainTypes) (height edge_bits : ℕ) → graph_weight chain height edge_bits < 2 ^ 64
unfolding graph_weight
graph_weight-bound chain height edge_bits = omega arith

module _ (hash_to_u64 : Proof → ℕ) where
  reaches_iff :
      (proof : Proof) (scale target : ℕ)
      → scale < 2 ^ 64
      → 1 < target
      → target ≤ u64_max
      → (target ≤ from_num (scaled_difficulty hash_to_u64 proof scale))
        ↔ (target * max 1 (hash_to_u64 proof) ≤ scale * 2 ^ 64)
  unfolding scaled_difficulty from_num
  reaches_iff proof scale target fits above small =
      let whole : scale * 2 ^ 64 % 2 ^ 128 ≡ scale * 2 ^ 64 = omega arith in
      let (down, up) =
        le-div_iff_mul-le {k = max 1 (hash_to_u64 proof)} {x = target} {y = scale * 2 ^ 64}
          (omega arith) in
      rw whole (λ h. down (omega arith), λ h. let q = up h in omega arith)

  -- For a secondary scaling that is a u32, a proof of work reaches a target above 1 that is a u64 exactly
  -- when the target times its hash (1 for a hash of 0) is at most its scale times 2 ^ 64.
  pub to_difficulty_iff :
      (chain : ChainTypes) (height : ℕ) (pow : ProofOfWork) (target : ℕ)
      → pow.secondary_scaling < 2 ^ 32
      → 1 < target
      → target ≤ u64_max
      → (target ≤ to_difficulty hash_to_u64 chain height pow)
        ↔ (target * max 1 (hash_to_u64 (pow.proof)) ≤ scale_of chain height pow * 2 ^ 64)
  unfolding to_difficulty
  to_difficulty_iff chain height pow target scaling above small =
      elim (Bool-cases (pow.proof.edge_bits == second_pow_edge_bits)) [
        | inl secondary ↦
            rw secondary
              (reaches_iff (pow.proof) (pow.secondary_scaling) target (omega arith) above small)
        | inr primary ↦ rw primary (
            reaches_iff (pow.proof) (graph_weight chain height (pow.proof.edge_bits)) target
              (graph_weight-bound chain height (pow.proof.edge_bits)) above small)
      ]
