-- ===== src/Global/Window.antt =====
-- core/src/global.rs, difficulty_data_to_vector: the window of headers has its full length.
use grin.Prelude.{
  ℕ, zero, suc, ◌-◌, ◌≡◌, refl, some, List, [], ◌∷◌, ◌++◌, reverse, arith, length, length-append,
  length-take, length-reverse, take, Bool-cases, ltb, ltb→lt, ge_of_ltb, inl, inr,
}
use grin.Global.Chain.{ChainTypes}
use grin.Global.History.{
  HeaderDifficultyInfo, difficulty_data_to_vector, padding, simulated, last?, last_ts_delta,
}

length-simulated :
    (chain : ChainTypes) (n ts delta diff : ℕ) → length (simulated chain n ts delta diff) ≡ n
unfolding simulated
length-simulated chain zero ts delta diff = refl
length-simulated chain (suc n) ts delta diff =
    omega (arith, length-simulated chain n (ts - delta) delta diff)

last?-cons {ℓ} : {A : Type ℓ} (x : A) (xs : List A) → (y : A) × (last? (x ∷ xs) ≡ some y)
last?-cons x [] = (x, refl)
last?-cons x (y ∷ xs) = last?-cons y xs

padding_lem :
    (chain : ChainTypes) (needed : ℕ) (x : HeaderDifficultyInfo) (xs : List HeaderDifficultyInfo)
    → (p : List HeaderDifficultyInfo) × (padding chain needed (x ∷ xs) ≡ some p)
      × (length p ≡ needed - length (x ∷ xs))
unfolding padding
padding_lem chain needed x xs =
    let (oldest, e) = last?-cons x xs in
    (
      simulated chain (needed - length (x ∷ xs)) oldest.timestamp (last_ts_delta (x ∷ xs))
          x.difficulty,
      rw e,
      length-simulated chain _ _ _ _,
    )

-- For a chain with at least one header the window is built without a panic, and it holds exactly
-- DMA_WINDOW + 1 headers.
pub length-difficulty_data_to_vector :
    (chain : ChainTypes) (newest : HeaderDifficultyInfo) (older : List HeaderDifficultyInfo)
    → (window : List HeaderDifficultyInfo) × (difficulty_data_to_vector chain (newest ∷ older)
        ≡ some window)
      × (length window ≡ 61)
unfolding difficulty_data_to_vector
length-difficulty_data_to_vector chain newest older = elim (Bool-cases (ltb (length last_n) 61)) [
  | inl short ↦
      let (p, e, n) = padding_lem chain 61 newest (take 60 older) in
      (
        reverse (last_n ++ p),
        rw (short, e),
        omega (arith, length-reverse (last_n ++ p), length-append last_n p, ltb→lt _ _ short),
      )
  | inr full ↦ (
    reverse last_n,
    rw full,
    omega (arith, length-reverse last_n, length-take 61 (newest ∷ older), ge_of_ltb _ _ full),
  )
]
  where
    last_n : List HeaderDifficultyInfo
    last_n = take 61 (newest ∷ older)
