-- ===== src/Consensus/Retarget/Dma.antt =====
-- core/src/consensus.rs: what next_dma_difficulty and secondary_pow_scaling promise.
use grin.Prelude.{
  ℕ, zero, suc, ◌-◌, ◌*◌, ◌/◌, ◌%◌, ◌^◌, ◌≤◌, ◌<◌, ◌≡◌, max, min, refl, ◌∙◌, ap, some, List, [],
  ◌∷◌, map, sum, drop, arith, checked_div, mul64, sub64, length, get_elem?-lt, All,
}
use native.Mathlib.Nat.{
  mul_assoc, mul-le-mul_left, zero-div, le_of_mul-le-mul_right, le_trans, div-mul-le_self,
  le-div_iff_mul-le,
}
use grin.Global.Chain.{ChainTypes}
use grin.Global.History.{HeaderDifficultyInfo, from_diff_scaling, difficulty_data_to_vector}
use grin.Global.Window.{length-difficulty_data_to_vector}
use grin.Consensus.Difficulty.{
  next_dma_difficulty, from_num, damp, clamp, secondary_pow_scaling, ar_count,
}
use grin.Consensus.Weight.{secondary_pow_ratio}

-- clamp and damp at the factors of the source.
damp_three : (a : ℕ) → (d : ℕ) × (damp a 3600 3 ≡ some d)
unfolding damp
damp_three a = (_, refl)

clamp_two : (a g : ℕ) → g < 2 ^ 62 → (r : ℕ) × (clamp a g 2 ≡ some r) × (g / 2 ≤ r) × (r ≤ g * 2)
unfolding clamp
clamp_two a g h = (max (g / 2) (min a (g * 2)), ground arith, omega arith, omega arith)

abbrev pub SmallScaling : HeaderDifficultyInfo → Type 0
SmallScaling d = d.secondary_scaling < 2 ^ 31

abbrev pub scalings : List HeaderDifficultyInfo → ℕ
scalings ds = sum (map (λ d. d.secondary_scaling) ds)

abbrev pub difficulties : List HeaderDifficultyInfo → ℕ
difficulties ds = sum (map (λ d. d.difficulty) ds)

scalings-le :
    (ds : List HeaderDifficultyInfo) → All SmallScaling ds → scalings ds ≤ length ds * (2 ^ 31 - 1)
scalings-le [] h = omega arith
scalings-le (d ∷ ds) (h, hs) = omega (arith, scalings-le ds hs)

scaled_le : (q p m : ℕ) → 30 * p ≤ m → q * 30 * p ≤ q * m
scaled_le q p m h = rw (mul_assoc q 30 p) (mul-le-mul_left q h)

-- A count of 30 for each percent makes the scale at most the sum over 30.
scale-le : (s p m : ℕ) → 0 < m → 30 * p ≤ m → s * p / m ≤ s / 30
scale-le s zero m pos h = ground (arith, zero-div m)
scale-le s (suc p) m pos h =
    let q = s * suc p / m in
    (le-div_iff_mul-le (omega arith)).1 (
      le_of_mul-le-mul_right {m = q * 30} {n = s} {k = suc p}
        (le_trans (scaled_le q (suc p) m h) (div-mul-le_self (s * suc p) m)) (omega arith))

scale_value :
    (s pct adj : ℕ)
    → s < 60 * 2 ^ 31
    → pct ≤ 90
    → 30 * pct ≤ adj
    → (r : ℕ) × (checked_div (mul64 (s % 2 ^ 64) pct) (max 1 adj) ≡ some r) × (r ≤ s / 30)
scale_value s pct adj hs hp h =
    let fits : s * pct < 2 ^ 64 = grind arith in
    (s * pct / max 1 adj, ground arith, scale-le s pct (max 1 adj) (omega arith) (omega arith))

damp_thirteen : (a g : ℕ) → (d : ℕ) × (damp a g 13 ≡ some d)
unfolding damp
damp_thirteen a g = (_, refl)

secondary_pow_ratio-le : (height : ℕ) → secondary_pow_ratio height ≤ 90
unfolding secondary_pow_ratio
secondary_pow_ratio-le height = omega arith

-- For a window of at most 60 headers with scalings under 2 ^ 31 the next scaling is computed without
-- a panic, it is at least MIN_AR_SCALE, and it is at most the larger of that and twice the mean
-- over 60 headers.
pub secondary_pow_scaling_bounds :
    (height : ℕ) (ds : List HeaderDifficultyInfo)
    → length ds ≤ 60
    → All SmallScaling ds
    → (r : ℕ) × (secondary_pow_scaling height ds ≡ some r)
      × (13 ≤ r)
      × (r ≤ max 13 (scalings ds / 30))
unfolding secondary_pow_scaling
secondary_pow_scaling_bounds height ds n small =
    let pct = secondary_pow_ratio height in
    let (d, damped) = damp_thirteen (ar_count ds) (60 * pct % 2 ^ 64) in
    let goal : 60 * pct % 2 ^ 64 ≡ 60 * pct = omega (arith, secondary_pow_ratio-le height) in
    let (adj, clamped, low, high) =
      clamp_two d (60 * pct % 2 ^ 64) (omega (arith, secondary_pow_ratio-le height)) in
    let sums : scalings ds < 60 * 2 ^ 31 = omega (arith, scalings-le ds small) in
    let (scale, divided, le) =
      scale_value (scalings ds) pct adj sums (secondary_pow_ratio-le height) (omega arith) in
    (max 13 scale, rw (damped, clamped, divided) (ap some (omega arith)), omega arith, omega arith)

div_antitone : (x a b : ℕ) → 0 < a → a ≤ b → x / b ≤ x / a
div_antitone x a b pos h =
    (le-div_iff_mul-le pos).1 (le_trans (mul-le-mul_left (x / b) h) (div-mul-le_self x b))

retarget_value :
    (total adj : ℕ)
    → total * 60 < 2 ^ 64
    → 1800 ≤ adj
    → adj ≤ 7200
    → (q : ℕ) × (checked_div (mul64 (total % 2 ^ 64) 60) adj ≡ some q)
      × (total * 60 / 7200 ≤ q)
      × (q ≤ total * 60 / 1800)
retarget_value total adj fits low high = (
  total * 60 / adj,
  ground arith,
  div_antitone (total * 60) adj 7200 (omega arith) high,
  div_antitone (total * 60) 1800 adj (omega arith) low,
)

length-drop_one {ℓ} : {A : Type ℓ} (xs : List A) → length xs ≡ 61 → length (drop 1 xs) ≤ 60
length-drop_one [] h = omega arith
length-drop_one (x ∷ xs) h = omega arith

-- For a chain with at least one header, whose window has an unwrapped sum of difficulties and
-- scalings under 2 ^ 31, the next difficulty is computed without a panic. It is at least
-- MIN_DMA_DIFFICULTY, and it lies between half and twice the mean over the 60 headers of the window,
-- raised to that minimum; the next scaling is at least MIN_AR_SCALE.
pub next_dma_difficulty_bounds :
    (chain : ChainTypes) (height : ℕ) (latest : HeaderDifficultyInfo)
    (older window : List HeaderDifficultyInfo)
    → difficulty_data_to_vector chain (latest ∷ older) ≡ some window
    → All SmallScaling (drop 1 window)
    → difficulties (drop 1 window) * 60 < 2 ^ 64
    → (next : HeaderDifficultyInfo) × (next_dma_difficulty chain height (latest ∷ older)
        ≡ some next)
      × (max 3 (difficulties (drop 1 window) * 60 / 7200) ≤ next.difficulty)
      × (next.difficulty ≤ max 3 (difficulties (drop 1 window) * 60 / 1800))
      × (13 ≤ next.secondary_scaling)
unfolding next_dma_difficulty from_diff_scaling from_num
next_dma_difficulty_bounds chain height latest older window built small fits =
    let (w, made, count) = length-difficulty_data_to_vector chain latest older in
    let same : window ≡ w = cc (built, made) in
    let full : length window ≡ 61 = ap length same ∙ count in
    let (scaling, scaled, least, _) =
      secondary_pow_scaling_bounds height (drop 1 window) (length-drop_one window full) small in
    let (newest, at_60) = get_elem?-lt window 60 (omega arith) in
    let (oldest, at_0) = get_elem?-lt window 0 (omega arith) in
    let (d, damped) = damp_three (sub64 newest.timestamp oldest.timestamp) in
    let (adj, clamped, low, high) = clamp_two d 3600 (omega arith) in
    let (q, divided, more, less) =
      retarget_value (difficulties (drop 1 window)) adj fits low high in
    (
      from_diff_scaling (max (max 3 q) 1) scaling,
      rw (built, scaled, at_60, at_0, damped, clamped, divided),
      omega arith,
      omega arith,
      least,
    )
