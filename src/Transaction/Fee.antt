-- ===== src/Transaction/Fee.antt =====
-- core/src/core/transaction.rs: FeeFields, 20 unused bits, 4 bits of fee shift and 40 of fee.
use grin.Prelude.{
  ℕ, ◌-◌, ◌%◌, ◌^◌, Bool, ◌||◌, ltb, ◌==◌, if◌then◌else◌, Option, none, some, Result, ok, err,
  bit_or, bit_and, shl64, shr64,
}
use grin.Transaction.Errors.{Error, invalid_fee_fields}

pub record FeeFields : Type 0 where
  pub bits : ℕ

abbrev pub fee_bits : ℕ
fee_bits = 40

abbrev pub fee_mask : ℕ
fee_mask = shl64 1 fee_bits - 1

abbrev pub fee_shift_bits : ℕ
fee_shift_bits = 4

abbrev pub fee_shift_mask : ℕ
fee_shift_mask = shl64 1 fee_shift_bits - 1

unfoldable pub try_from : ℕ → Result Error FeeFields
try_from fee =
    if fee == 0 || ltb fee_mask fee then err invalid_fee_fields else ok (record { bits = fee })

unfoldable pub new : ℕ → ℕ → Result Error FeeFields
new fee_shift fee =
    if fee == 0 || (ltb fee_mask fee || ltb fee_shift_mask fee_shift)
    then err invalid_fee_fields
    else ok (record { bits = bit_or (shl64 fee_shift fee_bits) fee })

unfoldable pub fee_shift : FeeFields → ℕ
fee_shift f = bit_and (shr64 (f.bits) fee_bits) fee_shift_mask % 2 ^ 8

unfoldable pub fee : FeeFields → ℕ
fee f = bit_and (f.bits) fee_mask

unfoldable pub is_zero : FeeFields → Bool
is_zero f = f.bits == 0

unfoldable pub as_opt : FeeFields → Option FeeFields
as_opt f = if is_zero f then none else some f

abbrev pub zero_fee : FeeFields
zero_fee = record { bits = 0 }
