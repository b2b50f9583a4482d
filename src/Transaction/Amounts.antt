-- ===== src/Transaction/Amounts.antt =====
-- core/src/core/transaction.rs: the fee and the fee shift of a body.
use grin.Prelude.{
  ℕ, ◌+◌, ◌/◌, ◌%◌, ◌^◌, ◌≤◌, ◌<◌, ◌≡◌, ◌⊎◌, inl, inr, refl, arith, min, max, u64_max, List, [],
  ◌∷◌, map, sum, All, ok, err,
}
use grin.Prelude.Bits.{bit_and-mask}
use grin.Transaction.Errors.{invalid_fee_fields}
use grin.Transaction.Fee.{FeeFields, fee, fee_shift}
use grin.Transaction.FeeBits.{new-extracts}
use grin.Transaction.Types.{TransactionBody}
use grin.Transaction.Body.{
  kernel_fees, fold_fee, fold_shift, body_fee, body_fee_shift, shifted_fee, aggregate_fee_fields,
}

-- The sum of the fees, without saturation.
abbrev pub fee_sum : TransactionBody → ℕ
fee_sum body = sum (map fee (kernel_fees (body.kernels)))

fold_fee-sum :
    (acc : ℕ) (fs : List FeeFields)
    → acc ≤ u64_max
    → fold_fee acc fs ≡ min (acc + sum (map fee fs)) u64_max
unfolding fold_fee
fold_fee-sum acc [] b = omega arith
fold_fee-sum acc (f ∷ fs) b =
    let rest = fold_fee-sum (min (acc + fee f) u64_max) fs (omega arith) in omega arith

body_fee-sum : (body : TransactionBody) → body_fee body ≡ min (fee_sum body) u64_max
unfolding body_fee
body_fee-sum body = omega (arith, fold_fee-sum 0 (kernel_fees (body.kernels)) (omega arith))

fee_shift-small : (f : FeeFields) → fee_shift f < 16
unfolding fee_shift
fee_shift-small f = omega (arith, bit_and-mask 4 (f.bits / 2 ^ 40))

fold_shift-small : (acc : ℕ) (fs : List FeeFields) → acc < 16 → fold_shift acc fs < 16
unfolding fold_shift
fold_shift-small acc [] b = b
fold_shift-small acc (f ∷ fs) b =
    fold_shift-small (max acc (fee_shift f)) fs (omega (arith, fee_shift-small f))

fold_shift-le :
    (acc : ℕ) (fs : List FeeFields)
    → (acc ≤ fold_shift acc fs) × All (λ f. fee_shift f ≤ fold_shift acc fs) fs
unfolding fold_shift
fold_shift-le acc [] = (omega arith, tt)
fold_shift-le acc (f ∷ fs) =
    let (le, rest) = fold_shift-le (max acc (fee_shift f)) fs in (omega arith, (omega arith, rest))

body_shift-small : (body : TransactionBody) → body_fee_shift body < 16
unfolding body_fee_shift
body_shift-small body = fold_shift-small 0 (kernel_fees (body.kernels)) (omega arith)

reason :
    (body : TransactionBody)
    → body_fee body ≡ min (fee_sum body) u64_max
    → body_fee_shift body < 16
    → (body_fee body ≡ 0) ⊎ ((2 ^ 40 ≤ body_fee body) ⊎ (16 ≤ body_fee_shift body))
    → (fee_sum body ≡ 0) ⊎ (2 ^ 40 ≤ fee_sum body)
reason body total small (inl e) = inl (omega arith)
reason body total small (inr (inl big)) = inr (omega arith)
reason body total small (inr (inr big)) = absurd (omega arith)

-- The aggregated fields exist exactly where the fees of the kernels sum to a number from 1 to
-- 2 ^ 40 - 1; they hold that sum and the shift of the body.
pub aggregate_fee_fields_sum :
    (body : TransactionBody)
    → ((0 < fee_sum body)
        × (fee_sum body < 2 ^ 40)
        × ((f : FeeFields) × (aggregate_fee_fields body ≡ ok f)
            × (fee f ≡ fee_sum body)
            × (fee_shift f ≡ body_fee_shift body)))
      ⊎ (((fee_sum body ≡ 0) ⊎ (2 ^ 40 ≤ fee_sum body))
          × (aggregate_fee_fields body ≡ err invalid_fee_fields))
unfolding aggregate_fee_fields
aggregate_fee_fields_sum body =
    let total = body_fee-sum body in
    let small = body_shift-small body in
    elim (new-extracts (body_fee_shift body) (body_fee body)) [
      | inl packed ↦
          let pos = packed.0 in
          let bound = packed.1 in
          let (f, built, amount, shift, nonzero) = packed.3 in
          inl (omega arith, omega arith, (f, built, omega arith, shift))
      | inr refused ↦ inr (reason body total small (refused.0), refused.1)
    ]

-- The fee without its priority is the sum of the fees, up to the largest word, divided by two to
-- the power of a shift of at most 15, which no kernel exceeds.
pub shifted_fee_bounds :
    (body : TransactionBody)
    → (body_fee_shift body ≤ 15)
      × (shifted_fee body ≡ min (fee_sum body) u64_max / 2 ^ body_fee_shift body)
      × All (λ f. fee_shift f ≤ body_fee_shift body) (kernel_fees (body.kernels))
unfolding shifted_fee body_fee_shift
shifted_fee_bounds body =
    let small = fold_shift-small 0 (kernel_fees (body.kernels)) (omega arith) in
    let shift = fold_shift 0 (kernel_fees (body.kernels)) in
    let amount : shift % 64 ≡ shift = omega arith in
    (
      omega arith,
      rw (amount, body_fee-sum body) refl,
      (fold_shift-le 0 (kernel_fees (body.kernels))).1,
    )
