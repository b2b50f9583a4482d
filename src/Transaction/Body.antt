-- ===== src/Transaction/Body.antt =====
-- core/src/core/transaction.rs: TransactionBody, its fees, its weight and its checks.
use grin.Prelude.{
  ℕ, ◌+◌, ◌-◌, min, max, List, [], ◌∷◌, ◌++◌, map, length, any, Bool, ltb, ◌==◌, if◌then◌else◌,
  Option, none, some, Result, ok, err, saturating_add64, saturating_mul64, shr64,
}
use grin.Prelude.Try.{◌>>◌}
use grin.Prelude.Sorting.{sort, dedup, any_adjacent}
use grin.Global.Chain.{ChainTypes, max_block_weight}
use grin.Global.Limits.{max_tx_weight}
use grin.Consensus.Params.{input_weight, output_weight, kernel_weight}
use grin.Ser.Types as Ser
use grin.Ser.Types.{sort_error, duplicate_error}
use grin.Transaction.Errors.{
  Error, too_heavy, invalid_nrd_relative_height, cut_through, invalid_output_features,
  invalid_kernel_features, serialization,
}
use grin.Transaction.Fee.{FeeFields, fee, fee_shift, new}
use grin.Transaction.Kernel.{
  plain, coinbase, height_locked, no_recent_duplicate, is_nrd, is_coinbase,
}
use grin.Transaction.Types.{
  TransactionBody, TxKernel, Output, Inputs, commit_only, features_and_commit, Hashes, inputs_len,
  inputs_committed, outputs_committed, is_coinbase_output,
}

-- map_kernels_fees.
unfoldable pub kernel_fees : List TxKernel → List FeeFields
kernel_fees [] = []
kernel_fees (k ∷ ks) = elim (k.features) [
  | coinbase ↦ kernel_fees ks
  | plain f ↦ f ∷ kernel_fees ks
  | height_locked f h ↦ f ∷ kernel_fees ks
  | no_recent_duplicate f h ↦ f ∷ kernel_fees ks
]

-- The folds go from the left, from an accumulator.
unfoldable pub fold_fee : ℕ → List FeeFields → ℕ
fold_fee acc [] = acc
fold_fee acc (f ∷ fs) = fold_fee (saturating_add64 acc (fee f)) fs

unfoldable pub fold_shift : ℕ → List FeeFields → ℕ
fold_shift acc [] = acc
fold_shift acc (f ∷ fs) = fold_shift (max acc (fee_shift f)) fs

unfoldable pub body_fee : TransactionBody → ℕ
body_fee body = fold_fee 0 (kernel_fees (body.kernels))

unfoldable pub body_fee_shift : TransactionBody → ℕ
body_fee_shift body = fold_shift 0 (kernel_fees (body.kernels))

unfoldable pub shifted_fee : TransactionBody → ℕ
shifted_fee body = shr64 (body_fee body) (body_fee_shift body)

unfoldable pub aggregate_fee_fields : TransactionBody → Result Error FeeFields
aggregate_fee_fields body = new (body_fee_shift body) (body_fee body)

unfoldable pub weight_by_iok : ℕ → ℕ → ℕ → ℕ
weight_by_iok num_inputs num_outputs num_kernels =
    saturating_add64
      (saturating_add64 (saturating_mul64 num_inputs input_weight)
        (saturating_mul64 num_outputs output_weight))
      (saturating_mul64 num_kernels kernel_weight)

unfoldable pub weight : TransactionBody → ℕ
weight body =
    weight_by_iok (inputs_len (body.inputs)) (length (body.outputs)) (length (body.kernels))

unfoldable pub fold_lock_height : ℕ → List TxKernel → ℕ
fold_lock_height acc [] = acc
fold_lock_height acc (k ∷ ks) = elim (k.features) [
  | height_locked f h ↦ fold_lock_height (max acc h) ks
  | coinbase ↦ fold_lock_height acc ks
  | plain f ↦ fold_lock_height acc ks
  | no_recent_duplicate f h ↦ fold_lock_height acc ks
]

unfoldable pub lock_height : TransactionBody → ℕ
lock_height body = fold_lock_height 0 (body.kernels)

pub data Weighting : Type 0 where
  as_transaction : Weighting
  as_limited_transaction : ℕ → Weighting
  as_block : Weighting
  no_limit : Weighting

unfoldable pub max_weight_for : ChainTypes → Weighting → Option ℕ
max_weight_for chain as_transaction = some (max_tx_weight chain)
max_weight_for chain (as_limited_transaction limit) =
    some (min (max_block_weight chain) limit - (output_weight + kernel_weight))
max_weight_for chain as_block = some (max_block_weight chain)
max_weight_for chain no_limit = none

unfoldable pub verify_weight : ChainTypes → Weighting → TransactionBody → Result Error (Unit {0})
verify_weight chain weighting body = elim (max_weight_for chain weighting) [
  | none ↦ ok tt
  | some max_weight ↦ if ltb max_weight (weight body) then err too_heavy else ok tt
]

unfoldable pub nrd_excess : List TxKernel → List ℕ
nrd_excess [] = []
nrd_excess (k ∷ ks) =
    let rest = nrd_excess ks in if is_nrd (k.features) then k.excess ∷ rest else rest

unfoldable pub verify_no_nrd_duplicates : Bool → TransactionBody → Result Error (Unit {0})
verify_no_nrd_duplicates nrd_enabled body =
    let sorted = sort (λ (n : ℕ). n) (nrd_excess (body.kernels)) in
    let checked =
      if length sorted == length (dedup sorted) then ok tt else err invalid_nrd_relative_height in
    if nrd_enabled then checked else ok tt

-- VerifySortedAndUnique of core/src/ser.rs, by the hashes of the elements.
unfoldable pub verify_sorted_and_unique : List ℕ → Result Ser.Error (Unit {0})
verify_sorted_and_unique [] = ok tt
verify_sorted_and_unique (x ∷ []) = ok tt
verify_sorted_and_unique (x ∷ y ∷ ys) =
    let rest = verify_sorted_and_unique (y ∷ ys) in
    if ltb y x then err sort_error else if x == y then err duplicate_error else rest

unfoldable pub input_hashes : Hashes → Inputs → List ℕ
input_hashes hashes (commit_only inputs) = map (hashes.commit_hash) inputs
input_hashes hashes (features_and_commit inputs) = map (hashes.input_hash) inputs

unfoldable pub to_error : Result Ser.Error (Unit {0}) → Result Error (Unit {0})
to_error (ok u) = ok u
to_error (err e) = err (serialization e)

unfoldable pub verify_sorted : Hashes → TransactionBody → Result Error (Unit {0})
verify_sorted hashes body =
    to_error (verify_sorted_and_unique (input_hashes hashes (body.inputs)))
    >> (to_error (
          verify_sorted_and_unique
            (map (λ (o : Output). hashes.output_hash (o.identifier)) (body.outputs)))
        >> to_error (verify_sorted_and_unique (map (hashes.kernel_hash) (body.kernels))))

unfoldable pub inputs_outputs_committed : Hashes → TransactionBody → List ℕ
inputs_outputs_committed hashes body =
    sort (λ (n : ℕ). n) (inputs_committed hashes body ++ outputs_committed body)

unfoldable pub verify_cut_through : Hashes → TransactionBody → Result Error (Unit {0})
verify_cut_through hashes body =
    if any_adjacent (inputs_outputs_committed hashes body) then err cut_through else ok tt

unfoldable pub verify_output_features : TransactionBody → Result Error (Unit {0})
verify_output_features body =
    if any (λ (o : Output). is_coinbase_output (o.identifier.features)) (body.outputs)
    then err invalid_output_features
    else ok tt

unfoldable pub verify_kernel_features : TransactionBody → Result Error (Unit {0})
verify_kernel_features body =
    if any (λ (k : TxKernel). is_coinbase (k.features)) (body.kernels)
    then err invalid_kernel_features
    else ok tt

unfoldable pub verify_features : TransactionBody → Result Error (Unit {0})
verify_features body = verify_output_features body >> verify_kernel_features body

unfoldable pub validate_read :
    ChainTypes → Bool → Hashes → Weighting → TransactionBody → Result Error (Unit {0})
validate_read chain nrd_enabled hashes weighting body =
    verify_weight chain weighting body
    >> (verify_no_nrd_duplicates nrd_enabled body
        >> (verify_sorted hashes body >> verify_cut_through hashes body))

-- Transaction::validate_read.
unfoldable pub validate_read_tx :
    ChainTypes → Bool → Hashes → TransactionBody → Result Error (Unit {0})
validate_read_tx chain nrd_enabled hashes body =
    validate_read chain nrd_enabled hashes as_transaction body >> verify_features body
