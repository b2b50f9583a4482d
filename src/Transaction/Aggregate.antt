-- ===== src/Transaction/Aggregate.antt =====
-- core/src/core/transaction.rs: whole transactions, their full validation, and how they are combined.
use grin.Prelude.{
  ℕ, ◌-◌, max, mul64, saturating_add64, saturating_mul64, checked_div, List, [], ◌∷◌, ◌++◌, map,
  Bool, any, ◌==◌, if◌then◌else◌, ◌||◌, Option, some, Result, ok, err,
}
use grin.Prelude.Sorting.{sort}
use grin.Prelude.Try.{◌>>=◌, ◌>>◌}
use grin.Global.Chain.{ChainTypes}
use grin.Transaction.Errors.{Error, committed, range_proof, incorrect_signature}
use grin.Transaction.Errors as Errors
use grin.Transaction.Types.{
  Output, Input, CommitWrapper, TxKernel, Inputs, commit_only, features_and_commit, TransactionBody,
  Hashes, to_commits,
}
use grin.Transaction.Body.{Weighting, validate_read, verify_features, body_fee, weight}
use grin.Transaction.Builder.{with_input, with_output, with_kernel, replace_kernel, empty_body}
use grin.Transaction.TxCodec.{Transaction}
use grin.Transaction.CutThrough.{CutResult, cut_through}
use grin.Transaction.CutThrough as CutThrough
use grin.Transaction.Sums.{
  Secp, CommittedError, or_err, sum_kernel_offsets, to_secrets, verify_kernel_sums,
}

-- TransactionBody::init without the check of the order.
unfoldable pub sort_inputs : Hashes → Inputs → Inputs
sort_inputs hashes (commit_only inputs) = commit_only (sort (hashes.commit_hash) inputs)
sort_inputs hashes (features_and_commit inputs) =
    features_and_commit (sort (hashes.input_hash) inputs)

abbrev pub output_key : Hashes → Output → ℕ
output_key hashes o = hashes.output_hash (o.identifier)

unfoldable pub sorted_body : Hashes → Inputs → List Output → List TxKernel → TransactionBody
sorted_body hashes inputs outputs kernels = record {
  inputs = sort_inputs hashes inputs;
  outputs = sort (output_key hashes) outputs;
  kernels = sort (hashes.kernel_hash) kernels;
}

unfoldable pub empty_transaction : Transaction
empty_transaction = record { offset = 0; body = empty_body }

unfoldable pub new_transaction : Hashes → Inputs → List Output → List TxKernel → Transaction
new_transaction hashes inputs outputs kernels = record {
  offset = 0;
  body = sorted_body hashes inputs outputs kernels;
}

unfoldable pub with_offset : ℕ → Transaction → Transaction
with_offset offset tx = record { offset = offset; body = tx.body }

unfoldable pub tx_with_input : Hashes → Input → Transaction → Transaction
tx_with_input hashes input tx = record {
  offset = tx.offset;
  body = with_input hashes input (tx.body);
}

unfoldable pub tx_with_output : Hashes → Output → Transaction → Transaction
tx_with_output hashes output tx = record {
  offset = tx.offset;
  body = with_output hashes output (tx.body);
}

unfoldable pub tx_with_kernel : Hashes → TxKernel → Transaction → Transaction
tx_with_kernel hashes kernel tx = record {
  offset = tx.offset;
  body = with_kernel hashes kernel (tx.body);
}

unfoldable pub tx_replace_kernel : TxKernel → Transaction → Transaction
tx_replace_kernel kernel tx = record { offset = tx.offset; body = replace_kernel kernel (tx.body) }

-- `fee as i64`, by its bits.
unfoldable pub overage : TransactionBody → ℕ
overage body = body_fee body

-- A division by zero panics.
unfoldable pub fee_rate : Transaction → Option ℕ
fee_rate tx = checked_div (body_fee (tx.body)) (weight (tx.body))

unfoldable pub accept_fee : ℕ → Transaction → ℕ
accept_fee accept_fee_base tx = mul64 (weight (tx.body)) accept_fee_base

unfoldable pub old_weight_by_iok : ℕ → ℕ → ℕ → ℕ
old_weight_by_iok num_inputs num_outputs num_kernels =
    max (saturating_add64 (saturating_mul64 num_outputs 4) num_kernels - num_inputs) 1

abbrev pub committed_error {ℓ} : {A : Type ℓ} → Result CommittedError A → Result Error A
committed_error (ok a) = ok a
committed_error (err e) = err committed

module _ (lib : Secp) where
  unfoldable pub batch_verify_proofs : List Output → Result Error (Unit {0})
  batch_verify_proofs [] = ok tt
  batch_verify_proofs (o ∷ os) =
      if lib.verify_proofs (map (λ (x : Output). x.identifier.commit) (o ∷ os))
        (map (λ (x : Output). x.proof) (o ∷ os))
      then ok tt
      else err Errors.secp

  unfoldable pub pubkeys : List TxKernel → Result Error (List ℕ × List ℕ)
  pubkeys [] = ok ([], [])
  pubkeys (k ∷ ks) = do
    key ← or_err (lib.to_pubkey (k.excess)) Errors.secp
    msg ← or_err (lib.sig_msg (k.features)) Errors.secp
    rest ← pubkeys ks
    ok (key ∷ rest.0, msg ∷ rest.1)

  unfoldable pub batch_sig_verify : List TxKernel → Result Error (Unit {0})
  batch_sig_verify kernels = do
    keys ← pubkeys kernels
    let sigs : List ℕ = map (λ (k : TxKernel). k.excess_sig) kernels
    (if lib.verify_batch sigs (keys.1) (keys.0) then ok tt else err incorrect_signature)

  unfoldable pub validate_body :
      ChainTypes → Bool → Hashes → Weighting → TransactionBody → Result Error (Unit {0})
  validate_body chain nrd_enabled hashes weighting body =
      validate_read chain nrd_enabled hashes weighting body
      >> (batch_verify_proofs (body.outputs) >> batch_sig_verify (body.kernels))

  unfoldable pub validate :
      ChainTypes → Bool → Hashes → Weighting → Transaction → Result Error (Unit {0})
  validate chain nrd_enabled hashes weighting tx =
      verify_features (tx.body)
      >> (validate_body chain nrd_enabled hashes weighting (tx.body) >> (do
        sums ←
            committed_error
              (verify_kernel_sums lib hashes (tx.body) (overage (tx.body)) (tx.offset))
        ok tt))

unfoldable pub all_inputs : Hashes → List Transaction → List CommitWrapper
all_inputs hashes [] = []
all_inputs hashes (tx ∷ txs) = to_commits hashes (tx.body.inputs) ++ all_inputs hashes txs

unfoldable pub all_outputs : List Transaction → List Output
all_outputs [] = []
all_outputs (tx ∷ txs) = tx.body.outputs ++ all_outputs txs

unfoldable pub all_kernels : List Transaction → List TxKernel
all_kernels [] = []
all_kernels (tx ∷ txs) = tx.body.kernels ++ all_kernels txs

abbrev pub cut_inputs_outputs :
    Hashes
    → List CommitWrapper
    → List Output
    → Option (Result Error (CutResult CommitWrapper Output))
cut_inputs_outputs hashes inputs outputs =
    cut_through (λ (c : CommitWrapper). c.commit) (λ (o : Output). o.identifier.commit)
      (hashes.commit_hash) (output_key hashes) inputs outputs

module _ (lib : Secp) (hashes : Hashes) where
  -- What aggregate builds of the cut inputs and outputs.
  unfoldable pub summed :
      List Transaction → Result Error (CutResult CommitWrapper Output) → Result Error Transaction
  summed txs (err e) = err e
  summed txs (ok res) = do
    offset ← committed_error (sum_kernel_offsets lib (map (λ (tx : Transaction). tx.offset) txs) [])
    ok (
        with_offset offset
          (new_transaction hashes (commit_only (res.inputs)) (res.outputs) (all_kernels txs)))

  unfoldable pub aggregate : List Transaction → Option (Result Error Transaction)
  aggregate [] = some (ok empty_transaction)
  aggregate (tx ∷ []) = some (ok tx)
  aggregate (t1 ∷ t2 ∷ txs) =
      CutThrough.and_then
        (cut_inputs_outputs hashes (all_inputs hashes (t1 ∷ t2 ∷ txs))
          (all_outputs (t1 ∷ t2 ∷ txs)))
        (λ res. some (summed (t1 ∷ t2 ∷ txs) res))

  -- The loops of deaggregate, on the keys that PartialEq compares: what the other list does not have,
  -- once each, in the order of the first occurrences.
  module _ {A : Type 0} (key : A → ℕ) where
    unfoldable pub has : A → List A → Bool
    has x ys = any (λ (y : A). key y == key x) ys

    unfoldable pub subtract : List A → List A → List A → List A
    subtract [] others found = found
    subtract (x ∷ xs) others found =
        subtract xs others (if has x others || has x found then found else found ++ x ∷ [])

  unfoldable pub keys_sum : List ℕ → List ℕ → Result Error ℕ
  keys_sum [] [] = ok 0
  keys_sum (x ∷ xs) negative = or_err (lib.blind_sum (x ∷ xs) negative) Errors.secp
  keys_sum [] (y ∷ ys) = or_err (lib.blind_sum [] (y ∷ ys)) Errors.secp

  unfoldable pub total_offset : ℕ → ℕ → Result Error ℕ
  total_offset mk_offset offset =
      keys_sum (to_secrets lib (mk_offset ∷ [])) (to_secrets lib (offset ∷ []))

  unfoldable pub deaggregate_from : Transaction → Transaction → Result Error Transaction
  deaggregate_from mk_tx tx =
      let inputs =
        subtract (hashes.commit_hash) (to_commits hashes (mk_tx.body.inputs))
          (to_commits hashes (tx.body.inputs)) [] in
      let outputs = subtract (output_key hashes) (mk_tx.body.outputs) (tx.body.outputs) [] in
      let kernels = subtract (hashes.kernel_hash) (mk_tx.body.kernels) (tx.body.kernels) [] in
      do
        offset ← total_offset (mk_tx.offset) (tx.offset)
        ok (
            with_offset offset (
              new_transaction hashes (commit_only (sort (hashes.commit_hash) inputs))
                (sort (output_key hashes) outputs) (sort (hashes.kernel_hash) kernels)))

  unfoldable pub deaggregate : Transaction → List Transaction → Option (Result Error Transaction)
  deaggregate mk_tx txs =
      CutThrough.and_then (aggregate txs) (λ res. some (res >>= deaggregate_from mk_tx))
