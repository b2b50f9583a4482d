-- ===== src/Transaction/Validation.antt =====
-- core/src/core/transaction.rs: what verify_weight and validate_read accept.
use grin.Prelude.{
  ℕ, ◌+◌, ◌-◌, ◌*◌, ◌≤◌, ◌≡◌, ◌↔◌, refl, arith, min, u64_max, List, ◌++◌, map, length, true, false,
  ltb, ok,
}
use grin.Prelude.Try.{◌>>◌}
use grin.Prelude.Sorting.{IsDistinct}
use grin.Global.Chain.{ChainTypes, max_block_weight}
use grin.Global.Limits.{max_tx_weight}
use grin.Transaction.Errors.{too_heavy}
use grin.Transaction.Types.{
  TransactionBody, Output, Hashes, inputs_len, inputs_committed, outputs_committed,
}
use grin.Transaction.Body.{
  Weighting, as_transaction, as_limited_transaction, as_block, no_limit, max_weight_for,
  verify_weight, weight, weight_by_iok, nrd_excess, verify_no_nrd_duplicates,
  verify_sorted_and_unique, input_hashes, to_error, verify_sorted, verify_cut_through,
  validate_read,
}
use grin.Transaction.Checks.{
  refused_iff, in_turn, through, IsAscending, verify_no_nrd_duplicates_iff, verify_cut_through_iff,
  verify_sorted_and_unique_iff, to_error_iff,
}

-- The weight before it saturates: an input weighs 1, an output 21 and a kernel 3.
abbrev pub total : TransactionBody → ℕ
total body = inputs_len (body.inputs) + 21 * length (body.outputs) + 3 * length (body.kernels)

-- A transaction leaves room for the output and the kernel of a coinbase.
unfoldable pub IsLight : ChainTypes → Weighting → TransactionBody → Type 0
IsLight chain as_transaction body = total body + 24 ≤ max_block_weight chain
IsLight chain (as_limited_transaction limit) body =
    total body ≤ min (max_block_weight chain) limit - 24
IsLight chain as_block body = total body ≤ max_block_weight chain
IsLight chain no_limit body = Unit {0}

weight-total : (body : TransactionBody) → weight body ≡ min (total body) u64_max
unfolding weight weight_by_iok
weight-total body = omega arith

pub chain_bounds :
    (chain : ChainTypes) → (24 ≤ max_block_weight chain) × (max_block_weight chain ≤ 40000)
unfolding max_block_weight
chain_bounds ChainTypes.automated_testing = omega arith
chain_bounds ChainTypes.user_testing = omega arith
chain_bounds ChainTypes.testnet = omega arith
chain_bounds ChainTypes.mainnet = omega arith

within :
    (body : TransactionBody) (limit : ℕ)
    → limit ≤ 40000
    → (ltb limit (weight body) ≡ false) ↔ (total body ≤ limit)
within body limit b = rw (weight-total body) (λ e. ground arith, λ h. ground arith)

-- The weight check accepts exactly the bodies whose weight, without saturation, is at most the
-- limit of its kind.
pub verify_weight_iff :
    (chain : ChainTypes) (weighting : Weighting) (body : TransactionBody)
    → (verify_weight chain weighting body ≡ ok tt) ↔ IsLight chain weighting body
unfolding verify_weight max_weight_for IsLight max_tx_weight
verify_weight_iff chain as_transaction body =
    let (low, high) = chain_bounds chain in
    let limit = max_block_weight chain - 24 in
    through (refused_iff (ltb limit (weight body)) too_heavy)
      (through (within body limit (omega arith)) (λ h. omega arith, λ h. omega arith))
verify_weight_iff chain (as_limited_transaction limit) body =
    let (low, high) = chain_bounds chain in
    let most = min (max_block_weight chain) limit - 24 in
    through (refused_iff (ltb most (weight body)) too_heavy) (within body most (omega arith))
verify_weight_iff chain as_block body =
    let (low, high) = chain_bounds chain in
    through (refused_iff (ltb (max_block_weight chain) (weight body)) too_heavy)
      (within body (max_block_weight chain) high)
verify_weight_iff chain no_limit body = (λ e. tt, λ h. refl)

module _ {A B C D : Type 0} where
  pub parts : (A ↔ B) → (C ↔ D) → (A × C) ↔ (B × D)
  parts f g = (λ p. (f.0 (p.0), g.0 (p.1)), λ q. (f.1 (q.0), g.1 (q.1)))

-- The keys by which inputs, outputs and kernels are ordered rise strictly.
unfoldable pub IsOrdered : Hashes → TransactionBody → Type 0
IsOrdered hashes body =
    IsAscending (input_hashes hashes (body.inputs))
    × (IsAscending (map (λ (o : Output). hashes.output_hash (o.identifier)) (body.outputs))
        × IsAscending (map (hashes.kernel_hash) (body.kernels)))

pub verify_sorted_iff :
    (hashes : Hashes) (body : TransactionBody)
    → (verify_sorted hashes body ≡ ok tt) ↔ IsOrdered hashes body
unfolding verify_sorted IsOrdered
verify_sorted_iff hashes body =
    let checked = λ (xs : List ℕ).
      through (to_error_iff (verify_sorted_and_unique xs)) (verify_sorted_and_unique_iff xs) in
    let inputs = input_hashes hashes (body.inputs) in
    let outputs = map (λ (o : Output). hashes.output_hash (o.identifier)) (body.outputs) in
    let kernels = map (hashes.kernel_hash) (body.kernels) in
    through
      (in_turn (to_error (verify_sorted_and_unique inputs)) (
        to_error (verify_sorted_and_unique outputs) >> to_error (verify_sorted_and_unique kernels)))
      (parts (checked inputs) (
        through
          (in_turn (to_error (verify_sorted_and_unique outputs))
            (to_error (verify_sorted_and_unique kernels)))
          (parts (checked outputs) (checked kernels))))

-- The quick validation, with NRD kernels enabled, accepts exactly the bodies within the weight limit
-- whose NRD excesses are distinct, whose inputs, outputs and kernels rise strictly in the order of
-- their hashes, and in which no commitment stands twice among inputs and outputs together.
pub validate_read_iff :
    (chain : ChainTypes) (hashes : Hashes) (weighting : Weighting) (body : TransactionBody)
    → (validate_read chain true hashes weighting body ≡ ok tt) ↔ (
        IsLight chain weighting body
        × (IsDistinct (nrd_excess (body.kernels))
            × (IsOrdered hashes body
                × IsDistinct (inputs_committed hashes body ++ outputs_committed body))))
unfolding validate_read
validate_read_iff chain hashes weighting body =
    let nrd = verify_no_nrd_duplicates true body in
    let ordered = verify_sorted hashes body in
    let spent = verify_cut_through hashes body in
    through (in_turn (verify_weight chain weighting body) (nrd >> (ordered >> spent))) (
      parts (verify_weight_iff chain weighting body) (
        through (in_turn nrd (ordered >> spent)) (
          parts (verify_no_nrd_duplicates_iff body) (
            through (in_turn ordered spent)
              (parts (verify_sorted_iff hashes body) (verify_cut_through_iff hashes body))))))
