-- ===== src/Global/History.antt =====
-- core/src/global.rs, difficulty_data_to_vector, with HeaderDifficultyInfo of
-- core/src/consensus.rs: the window of past headers from which the next difficulty is computed.
use grin.Prelude.{
  ℕ, zero, suc, ◌+◌, ◌-◌, Option, none, some, List, [], ◌∷◌, ◌++◌, reverse, Bool, true, ltb,
  if◌then◌else◌, length, take, sub64,
}
use mathlib.Core.Option
use grin.Prelude.Panic.{◌>>=◌}
use grin.Global.Chain.{ChainTypes}
use grin.Global.Limits.{initial_graph_weight}
use grin.Consensus.Params.{dma_window, block_time_sec}

-- The `hash` field is carried and never read; a hash is a number.
pub record HeaderDifficultyInfo : Type 0 where
  pub hash : Option ℕ
  pub timestamp : ℕ
  pub difficulty : ℕ
  pub secondary_scaling : ℕ
  pub is_secondary : Bool

unfoldable pub from_ts_diff : ChainTypes → ℕ → ℕ → HeaderDifficultyInfo
from_ts_diff chain timestamp difficulty = record {
  hash = none;
  timestamp = timestamp;
  difficulty = difficulty;
  secondary_scaling = initial_graph_weight chain;
  is_secondary = true;
}

unfoldable pub from_diff_scaling : ℕ → ℕ → HeaderDifficultyInfo
from_diff_scaling difficulty secondary_scaling = record {
  hash = none;
  timestamp = 1;
  difficulty = difficulty;
  secondary_scaling = secondary_scaling;
  is_secondary = true;
}

-- The simulated headers before the genesis block, `count` of them: each is `delta` seconds older.
-- Subtraction on ℕ stops at 0, as `saturating_sub` does.
unfoldable pub simulated : ChainTypes → ℕ → ℕ → ℕ → ℕ → List HeaderDifficultyInfo
simulated chain zero last_ts delta diff = []
simulated chain (suc count) last_ts delta diff =
    from_ts_diff chain (last_ts - delta) diff ∷ simulated chain count (last_ts - delta) delta diff

-- The time between the two latest headers, and the block time if there is one header alone.
unfoldable pub last_ts_delta : List HeaderDifficultyInfo → ℕ
last_ts_delta (a ∷ b ∷ rest) = sub64 a.timestamp b.timestamp
last_ts_delta _ = block_time_sec

abbrev pub last? {ℓ} : {A : Type ℓ} → List A → Option A
last? [] = none
last? (x ∷ []) = some x
last? (x ∷ y ∷ r) = last? (y ∷ r)

abbrev pub first? {ℓ} : {A : Type ℓ} → List A → Option A
first? [] = none
first? (x ∷ r) = some x

-- What is pushed until the vector holds `needed` headers. With no header, `last_n[0]` panics.
unfoldable pub padding :
    ChainTypes → ℕ → List HeaderDifficultyInfo → Option (List HeaderDifficultyInfo)
unfolding simulated last_ts_delta
padding chain needed last_n = do
  newest ← first? last_n
  oldest ← last? last_n
  some (
      simulated chain (needed - length last_n) oldest.timestamp (last_ts_delta last_n)
        newest.difficulty)

unfoldable pub difficulty_data_to_vector :
    ChainTypes → List HeaderDifficultyInfo → Option (List HeaderDifficultyInfo)
unfolding padding
difficulty_data_to_vector chain cursor =
    let last_n = take (dma_window + 1) cursor in
    if ltb (length last_n) (dma_window + 1)
    then Option.map (λ p. reverse (last_n ++ p)) (padding chain (dma_window + 1) last_n)
    else some (reverse last_n)
