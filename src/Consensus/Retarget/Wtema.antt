-- ===== src/Consensus/Retarget/Wtema.antt =====
-- core/src/consensus.rs: what next_wtema_difficulty promises.
use grin.Prelude.{ℕ, ◌+◌, ◌*◌, ◌/◌, ◌^◌, ◌≤◌, ◌<◌, ◌≡◌, max, some, List, ◌∷◌, arith}
use native.Mathlib.Nat.{div-le_of_le-mul, le-div_iff_mul-le}
use grin.Global.Chain.{ChainTypes}
use grin.Global.Limits.{min_wtema_graph_weight}
use grin.Global.History.{HeaderDifficultyInfo, from_diff_scaling}
use grin.Consensus.Params.{c32_graph_weight}
use grin.Consensus.Difficulty.{next_wtema_difficulty, from_num}

-- The latest headers are `last` and `prev`, with `t` seconds between them, and neither the time of `last`
-- nor the product of its difficulty and 14400 overflows.
pub record WtemaInput (last prev : HeaderDifficultyInfo) (t : ℕ) : Type 0 where
  pub elapsed : last.timestamp ≡ prev.timestamp + t
  pub stamp_fits : last.timestamp < 2 ^ 63
  pub product_fits : last.difficulty * 14400 < 2 ^ 64

module _ (chain : ChainTypes) (last prev : HeaderDifficultyInfo) (older : List HeaderDifficultyInfo)
    (t : ℕ) (i : WtemaInput last prev t) where
  wtema_value :
      next_wtema_difficulty chain (last ∷ prev ∷ older)
      ≡ some (
          from_diff_scaling
            (max (min_wtema_graph_weight chain) (from_num (last.difficulty * 14400 / (14340 + t))))
            0)
  unfolding next_wtema_difficulty
  wtema_value = ground arith

slow_quotient : (d t : ℕ) → 60 ≤ t → d * 14400 / (14340 + t) ≤ d
slow_quotient d t h = div-le_of_le-mul (14340 + t) (grind arith)

fast_quotient : (d t : ℕ) → t ≤ 60 → d ≤ d * 14400 / (14340 + t)
fast_quotient d t h = (le-div_iff_mul-le (omega arith)).1 (grind arith)

faster_quotient : (d t : ℕ) → t < 60 → c32_graph_weight ≤ d → d < d * 14400 / (14340 + t)
faster_quotient d t h w = (le-div_iff_mul-le (omega arith)).1 (grind arith)

module _ (chain : ChainTypes) (last prev : HeaderDifficultyInfo) (older : List HeaderDifficultyInfo)
    (t : ℕ) (i : WtemaInput last prev t) where
  -- When the latest header comes `t` seconds after the one before, `t` is at most the block time of 60
  -- seconds, its time is below 2^63 and its difficulty times 14400 below 2^64, then next_wtema_difficulty
  -- does not panic, the difficulty does not fall, and it is at least the minimum of the chain.
  pub wtema_rises :
      t ≤ 60
      → (next : HeaderDifficultyInfo) × (next_wtema_difficulty chain (last ∷ prev ∷ older)
          ≡ some next)
        × (last.difficulty ≤ next.difficulty)
        × (min_wtema_graph_weight chain ≤ next.difficulty)
  unfolding from_diff_scaling from_num
  wtema_rises h = (
    _,
    wtema_value chain last prev older t i,
    omega (arith, fast_quotient last.difficulty t h),
    omega arith,
  )

  -- When the latest header comes `t` seconds after the one before, `t` is at least the block time of 60
  -- seconds, its time is below 2^63, and its difficulty is at least 1 and the minimum of the chain and,
  -- times 14400, below 2^64, then next_wtema_difficulty does not panic, the difficulty does not rise, and it
  -- stays at least that minimum.
  pub wtema_falls :
      60 ≤ t
      → min_wtema_graph_weight chain ≤ last.difficulty
      → 1 ≤ last.difficulty
      → (next : HeaderDifficultyInfo) × (next_wtema_difficulty chain (last ∷ prev ∷ older)
          ≡ some next)
        × (next.difficulty ≤ last.difficulty)
        × (min_wtema_graph_weight chain ≤ next.difficulty)
  unfolding from_diff_scaling from_num
  wtema_falls h m p = (
    _,
    wtema_value chain last prev older t i,
    omega (arith, slow_quotient last.difficulty t h),
    omega arith,
  )

  -- When the latest header comes `t` seconds after the one before, `t` is below the block time of 60
  -- seconds, its time is below 2^63, and its difficulty is at least the weight of a graph with 32 edge bits
  -- and, times 14400, below 2^64, then next_wtema_difficulty does not panic and the difficulty rises.
  pub wtema_grows :
      t < 60
      → c32_graph_weight ≤ last.difficulty
      → (next : HeaderDifficultyInfo) × (next_wtema_difficulty chain (last ∷ prev ∷ older)
          ≡ some next)
        × (last.difficulty < next.difficulty)
  unfolding from_diff_scaling from_num
  wtema_grows h w = (
    _,
    wtema_value chain last prev older t i,
    omega (arith, faster_quotient last.difficulty t h w),
  )
