-- ===== src/Transaction/FeeBits.antt =====
-- core/src/core/transaction.rs: what FeeFields packs can be taken out again.
use grin.Prelude.{
  ℕ, zero, suc, ◌+◌, ◌*◌, ◌/◌, ◌^◌, ◌≤◌, ◌<◌, ◌≡◌, ◌⊎◌, inl, inr, refl, ◌∙◌, arith, false, ok, err,
  shl64,
}
use native.Mathlib.Decide.{dec_lt}
use grin.Prelude.Bits.{bit_and-mask, bit_or-above}
use grin.Transaction.Errors.{invalid_fee_fields}
use grin.Transaction.Fee.{FeeFields, new, fee, fee_shift, is_zero}

new-bits :
    (shift amount : ℕ)
    → 0 < amount
    → amount < 2 ^ 40
    → shift < 16
    → new shift amount ≡ ok (record { bits = shift * 2 ^ 40 + amount })
unfolding new
new-bits shift amount pos ab sb =
    let packed = bit_or-above 40 shift amount ab in
    let shifted : shl64 shift 40 ≡ shift * 2 ^ 40 = omega arith in
    rw (shifted, packed) (ground arith)

fee-bits :
    (shift amount : ℕ) → amount < 2 ^ 40 → fee (record { bits = shift * 2 ^ 40 + amount }) ≡ amount
unfolding fee
fee-bits shift amount ab = bit_and-mask 40 (shift * 2 ^ 40 + amount) ∙ omega arith

fee_shift-bits :
    (shift amount : ℕ)
    → amount < 2 ^ 40
    → shift < 16
    → fee_shift (record { bits = shift * 2 ^ 40 + amount }) ≡ shift
unfolding fee_shift
fee_shift-bits shift amount ab sb =
    omega (arith, bit_and-mask 4 ((shift * 2 ^ 40 + amount) / 2 ^ 40))

in_range :
    (shift amount : ℕ)
    → ((0 < amount) × (amount < 2 ^ 40) × (shift < 16))
      ⊎ ((amount ≡ 0) ⊎ ((2 ^ 40 ≤ amount) ⊎ (16 ≤ shift)))
in_range shift zero = inr (inl refl)
in_range shift (suc n) = elim (dec_lt (suc n) (2 ^ 40)) [
  | no big ↦ inr (inr (inl (omega arith)))
  | yes small ↦ elim (dec_lt shift 16) [
    | yes p ↦ inl (omega arith, small, p)
    | no q ↦ inr (inr (inr (omega arith)))
  ]
]

refused :
    (shift amount : ℕ)
    → (amount ≡ 0) ⊎ ((2 ^ 40 ≤ amount) ⊎ (16 ≤ shift))
    → new shift amount ≡ err invalid_fee_fields
unfolding new
refused shift amount (inl e) = rw e refl
refused shift amount (inr (inl big)) = ground arith
refused shift amount (inr (inr big)) = ground arith

-- A fee from 1 to 2 ^ 40 - 1 with a shift of at most 15 is packed, and both are taken out again;
-- all else is refused.
pub new-extracts :
    (shift amount : ℕ)
    → ((0 < amount)
        × (amount < 2 ^ 40)
        × (shift < 16)
        × ((f : FeeFields) × (new shift amount ≡ ok f)
            × (fee f ≡ amount)
            × (fee_shift f ≡ shift)
            × (is_zero f ≡ false)))
      ⊎ (((amount ≡ 0) ⊎ ((2 ^ 40 ≤ amount) ⊎ (16 ≤ shift)))
          × (new shift amount ≡ err invalid_fee_fields))
unfolding is_zero
new-extracts shift amount = elim (in_range shift amount) [
  | inl fits ↦
      let pos = fits.0 in
      inl (
        pos,
        fits.1,
        fits.2,
        (
          record { bits = shift * 2 ^ 40 + amount },
          new-bits shift amount pos (fits.1) (fits.2),
          fee-bits shift amount (fits.1),
          fee_shift-bits shift amount (fits.1) (fits.2),
          ground arith,
        ),
      )
  | inr out ↦ inr (out, refused shift amount out)
]
