-- ===== src/Transaction/Errors.antt =====
-- core/src/core/transaction.rs: the errors. Those of the libraries are kept without their contents.
use grin.Prelude.{ℕ}
use grin.Ser.Types

pub data Error : Type 0 where
  secp : Error
  keychain : Error
  kernel_sum_mismatch : Error
  too_heavy : Error
  lock_height : ℕ → Error
  range_proof : Error
  merkle_proof : Error
  invalid_proof_message : Error
  committed : Error
  cut_through : Error
  invalid_output_features : Error
  invalid_kernel_features : Error
  invalid_fee_fields : Error
  invalid_nrd_relative_height : Error
  incorrect_signature : Error
  serialization : Types.Error → Error
