-- ===== src/Consensus/Difficulty.antt =====
-- core/src/consensus.rs: the difficulty and the secondary scaling of the next block. The cursor of
-- past headers is their list, latest first. `none` is a panic.
use grin.Prelude.{
  ℕ, ◌+◌, ◌-◌, ◌%◌, ◌^◌, min, max, Option, some, List, [], ◌∷◌, map, ltb, if◌then◌else◌, get_elem?,
  drop, sum, add64, sub64, mul64, checked_div,
}
use grin.Prelude.Panic.{◌>>=◌}
use grin.Global.Chain.{ChainTypes}
use grin.Global.Limits.{min_wtema_graph_weight}
use grin.Global.History.{HeaderDifficultyInfo, from_diff_scaling, difficulty_data_to_vector}
use grin.Consensus.Params.{
  dma_window, block_time_sec, block_time_window, dma_damp_factor, ar_scale_damp_factor,
  clamp_factor, min_dma_difficulty, min_ar_scale, wtema_half_life,
}
use grin.Consensus.Version.{header_version}
use grin.Consensus.Weight.{secondary_pow_ratio}

unfoldable pub damp : ℕ → ℕ → ℕ → Option ℕ
damp actual goal damp_factor =
    checked_div (add64 actual (mul64 (sub64 damp_factor 1) goal)) damp_factor

unfoldable pub clamp : ℕ → ℕ → ℕ → Option ℕ
clamp actual goal factor = do
  low ← checked_div goal factor
  some (max low (min actual (mul64 goal factor)))

-- core/src/pow/types.rs, Difficulty::from_num: a difficulty is at least 1.
unfoldable pub from_num : ℕ → ℕ
from_num num = max num 1

abbrev pub count_secondary : List HeaderDifficultyInfo → ℕ
count_secondary [] = 0
count_secondary (d ∷ ds) = (if d.is_secondary then 1 else 0) + count_secondary ds

unfoldable pub ar_count : List HeaderDifficultyInfo → ℕ
ar_count diff_data = mul64 100 (count_secondary diff_data)

abbrev pub scale_sum : List HeaderDifficultyInfo → ℕ
scale_sum diff_data = sum (map (λ d. d.secondary_scaling) diff_data) % 2 ^ 64

abbrev pub diff_sum : List HeaderDifficultyInfo → ℕ
diff_sum diff_data = sum (map (λ d. d.difficulty) diff_data) % 2 ^ 64

-- The result is cast to u32.
unfoldable pub secondary_pow_scaling : ℕ → List HeaderDifficultyInfo → Option ℕ
secondary_pow_scaling height diff_data = do
  let target_pct = secondary_pow_ratio height
  let target_count = mul64 dma_window target_pct
  damped ← damp (ar_count diff_data) target_count ar_scale_damp_factor
  adj_count ← clamp damped target_count clamp_factor
  scale ← checked_div (mul64 (scale_sum diff_data) target_pct) (max 1 adj_count)
  some (max min_ar_scale scale % 2 ^ 32)

unfoldable pub next_dma_difficulty :
    ChainTypes → ℕ → List HeaderDifficultyInfo → Option HeaderDifficultyInfo
next_dma_difficulty chain height cursor = do
  diff_data ← difficulty_data_to_vector chain cursor
  sec_pow_scaling ← secondary_pow_scaling height (drop 1 diff_data)
  newest ← get_elem? diff_data dma_window
  oldest ← get_elem? diff_data 0
  let ts_delta = sub64 newest.timestamp oldest.timestamp
  damped ← damp ts_delta block_time_window dma_damp_factor
  adj_ts ← clamp damped block_time_window clamp_factor
  difficulty ← checked_div (mul64 (diff_sum (drop 1 diff_data)) block_time_sec) adj_ts
  some (from_diff_scaling (from_num (max min_dma_difficulty difficulty)) sec_pow_scaling)

unfoldable pub next_wtema_difficulty :
    ChainTypes → List HeaderDifficultyInfo → Option HeaderDifficultyInfo
next_wtema_difficulty chain cursor = do
  last_header ← get_elem? cursor 0
  prev_header ← get_elem? cursor 1
  let last_block_time = sub64 last_header.timestamp prev_header.timestamp
  next_diff ←
      checked_div (mul64 last_header.difficulty wtema_half_life)
        (add64 (wtema_half_life - block_time_sec) last_block_time)
  some (from_diff_scaling (max (min_wtema_graph_weight chain) (from_num next_diff)) 0)

unfoldable pub next_difficulty :
    ChainTypes → ℕ → List HeaderDifficultyInfo → Option HeaderDifficultyInfo
next_difficulty chain height cursor =
    if ltb (header_version chain height) 5
    then next_dma_difficulty chain height cursor
    else next_wtema_difficulty chain cursor
