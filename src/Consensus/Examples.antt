-- ===== src/Consensus/Examples.antt =====
-- core/src/consensus.rs: the theorems at concrete headers.
use grin.Prelude.{
  ℕ, ◌*◌, ◌/◌, ◌^◌, ◌≤◌, ◌<◌, ◌≡◌, max, refl, arith, none, some, false, not, List, [], ◌∷◌,
  replicate, any, All, ltb, ltb→lt, Bool-cases, inl, inr,
}
use grin.Global.Chain.{ChainTypes, base_edge_bits}
use grin.Global.Limits.{min_wtema_graph_weight}
use grin.Global.History.{HeaderDifficultyInfo, difficulty_data_to_vector}
use grin.Consensus.Weight.{graph_weight, xpr_edge_bits}
use grin.Consensus.Difficulty.{next_dma_difficulty, next_wtema_difficulty, secondary_pow_scaling}
use grin.Consensus.Retarget.Wtema.{wtema_rises, wtema_falls, wtema_grows}
use grin.Consensus.Retarget.Dma.{
  SmallScaling, scalings, difficulties, secondary_pow_scaling_bounds, next_dma_difficulty_bounds,
}
use grin.Consensus.Schedule.{xpr_edge_bits_mono, graph_weight_mono}

abbrev header_at : ℕ → HeaderDifficultyInfo
header_at t = record {
  hash = none;
  timestamp = t;
  difficulty = 20_000;
  secondary_scaling = 1856;
  is_secondary = false;
}

wtema_rises_example :
    (next : HeaderDifficultyInfo) × (next_wtema_difficulty ChainTypes.mainnet
        (header_at 1030 ∷ header_at 1000 ∷ [])
      ≡ some next)
    × (20_000 ≤ next.difficulty)
    × (min_wtema_graph_weight ChainTypes.mainnet ≤ next.difficulty)
wtema_rises_example =
    wtema_rises ChainTypes.mainnet (header_at 1030) (header_at 1000) [] 30
      (record { elapsed = refl; stamp_fits = omega arith; product_fits = omega arith })
      (omega arith)

wtema_falls_example :
    (next : HeaderDifficultyInfo) × (next_wtema_difficulty ChainTypes.mainnet
        (header_at 1090 ∷ header_at 1000 ∷ [])
      ≡ some next)
    × (next.difficulty ≤ 20_000)
    × (min_wtema_graph_weight ChainTypes.mainnet ≤ next.difficulty)
unfolding min_wtema_graph_weight
wtema_falls_example =
    wtema_falls ChainTypes.mainnet (header_at 1090) (header_at 1000) [] 90
      (record { elapsed = refl; stamp_fits = omega arith; product_fits = omega arith })
      (omega arith) (omega arith) (omega arith)

wtema_grows_example :
    (next : HeaderDifficultyInfo) × (next_wtema_difficulty ChainTypes.mainnet
        (header_at 1030 ∷ header_at 1000 ∷ [])
      ≡ some next)
    × (20_000 < next.difficulty)
wtema_grows_example =
    wtema_grows ChainTypes.mainnet (header_at 1030) (header_at 1000) [] 30
      (record { elapsed = refl; stamp_fits = omega arith; product_fits = omega arith })
      (omega arith) (omega arith)

small_scalings :
    (ds : List HeaderDifficultyInfo)
    → any (λ (d : HeaderDifficultyInfo). not (ltb (d.secondary_scaling) (2 ^ 31))) ds ≡ false
    → All SmallScaling ds
small_scalings [] e = tt
small_scalings (d ∷ ds) e = elim (Bool-cases (ltb (d.secondary_scaling) (2 ^ 31))) [
  | inl small ↦ (ltb→lt (d.secondary_scaling) (2 ^ 31) small, small_scalings ds (rw small at e))
  | inr big ↦ absurd (ground arith)
]

abbrev steady : List HeaderDifficultyInfo
steady = replicate 60 (header_at 1000)

secondary_pow_scaling_bounds_example :
    (r : ℕ) × (secondary_pow_scaling 5000 steady ≡ some r)
    × (13 ≤ r)
    × (r ≤ max 13 (scalings steady / 30))
secondary_pow_scaling_bounds_example =
    secondary_pow_scaling_bounds 5000 steady (omega arith) (small_scalings steady refl)

next_dma_difficulty_bounds_example :
    (next : HeaderDifficultyInfo) × (next_dma_difficulty ChainTypes.mainnet 5000
        (header_at 1000 ∷ steady)
      ≡ some next)
    × (max 3 (difficulties steady * 60 / 7200) ≤ next.difficulty)
    × (next.difficulty ≤ max 3 (difficulties steady * 60 / 1800))
    × (13 ≤ next.secondary_scaling)
unfolding difficulty_data_to_vector
next_dma_difficulty_bounds_example =
    next_dma_difficulty_bounds ChainTypes.mainnet 5000 (header_at 1000) steady
      (replicate 61 (header_at 1000)) refl (small_scalings steady refl) (omega arith)

xpr_edge_bits_mono_example :
    (xpr_edge_bits 600_000 31 ≤ xpr_edge_bits 530_000 31) × (xpr_edge_bits 530_000 31 ≤ 31)
xpr_edge_bits_mono_example = xpr_edge_bits_mono 530_000 600_000 31 (omega arith)

graph_weight_mono_example :
    graph_weight ChainTypes.mainnet 600_000 31 ≤ graph_weight ChainTypes.mainnet 530_000 31
unfolding base_edge_bits
graph_weight_mono_example =
    graph_weight_mono ChainTypes.mainnet 530_000 600_000 31 (omega arith) (omega arith)
