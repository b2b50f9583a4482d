-- ===== src/Transaction/AggregateCounts.antt =====
-- core/src/core/transaction.rs: what aggregate keeps of its transactions.
use grin.Prelude.{ℕ, ◌-◌, ◌≡◌, ◌⊎◌, inl, inr, refl, ◌∙◌, List, [], ◌∷◌, map, some, ok, err}
use grin.Prelude.Try.{◌>>=◌}
use grin.Prelude.Counting.{count, count-sort}
use grin.Transaction.Errors.{cut_through as cut_through_error}
use grin.Transaction.Types.{
  Output, CommitWrapper, TxKernel, commit_only, TransactionBody, Hashes, to_commits,
}
use grin.Transaction.TxCodec.{Transaction}
use grin.Transaction.CutThrough.{CutResult}
use grin.Transaction.CutCounts.{IsBalanced, IsUnique, cut_through-IsBalanced}
use grin.Transaction.Sums.{Secp, sum_kernel_offsets}
use grin.Transaction.Aggregate.{
  sort_inputs, sorted_body, output_key, new_transaction, with_offset, committed_error, all_inputs,
  all_outputs, all_kernels, summed, aggregate,
}

abbrev pub input_commit : CommitWrapper → ℕ
input_commit c = c.commit

abbrev pub output_commit : Output → ℕ
output_commit o = o.identifier.commit

-- The body holds the inputs and outputs that do not cancel, and all kernels.
pub record IsAggregate (hashes : Hashes) (txs : List Transaction) (body : TransactionBody)
    : Type 0 where
  pub inputs_left :
      (v : ℕ)
      → count input_commit v (to_commits hashes (body.inputs))
        ≡ count input_commit v (all_inputs hashes txs) - count output_commit v (all_outputs txs)
  pub outputs_left :
      (v : ℕ)
      → count output_commit v (body.outputs)
        ≡ count output_commit v (all_outputs txs) - count input_commit v (all_inputs hashes txs)
  pub kernels_kept :
      (key : TxKernel → ℕ) (v : ℕ) → count key v (body.kernels) ≡ count key v (all_kernels txs)

body_of : Hashes → List Transaction → CutResult CommitWrapper Output → TransactionBody
body_of hashes txs res =
    sorted_body hashes (commit_only (res.inputs)) (res.outputs) (all_kernels txs)

body_of-IsAggregate :
    (hashes : Hashes) (txs : List Transaction) (res : CutResult CommitWrapper Output)
    → IsBalanced input_commit output_commit
        (hashes.commit_hash)
        (output_key hashes)
        (all_inputs hashes txs)
        (all_outputs txs)
        res
    → IsAggregate hashes txs (body_of hashes txs res)
unfolding body_of sorted_body sort_inputs to_commits
body_of-IsAggregate hashes txs res b = record {
  inputs_left = λ v. count-sort input_commit (hashes.commit_hash) v (res.inputs) ∙ b.in_kept v;
  outputs_left = λ v. count-sort output_commit (output_key hashes) v (res.outputs) ∙ b.out_kept v;
  kernels_kept = λ key v. count-sort key (hashes.kernel_hash) v (all_kernels txs);
}

-- Of two or more transactions, aggregate does not panic. Either two inputs or two outputs with one
-- hash are left after the cut, and the result is the error CutThrough; or the result has the sum of
-- the offsets, where that exists, and a body with all kernels, in which there are as many inputs of
-- each commitment as there are more than outputs, and as many outputs as there are more than inputs.
pub aggregate-IsAggregate :
    (lib : Secp) (hashes : Hashes) (t1 t2 : Transaction) (txs : List Transaction)
    → ((body : TransactionBody) × IsAggregate hashes (t1 ∷ t2 ∷ txs) body
        × (aggregate lib hashes (t1 ∷ t2 ∷ txs)
            ≡ some (
                committed_error (
                  sum_kernel_offsets lib (map (λ (tx : Transaction). tx.offset) (t1 ∷ t2 ∷ txs)) [])
                >>= λ offset. ok (record { offset = offset; body = body }))))
      ⊎ ((res : CutResult CommitWrapper Output) × IsBalanced input_commit output_commit
            (hashes.commit_hash)
            (output_key hashes)
            (all_inputs hashes (t1 ∷ t2 ∷ txs))
            (all_outputs (t1 ∷ t2 ∷ txs))
            res
          × (¬ IsUnique input_commit output_commit (hashes.commit_hash) (output_key hashes) res)
          × (aggregate lib hashes (t1 ∷ t2 ∷ txs) ≡ some (err cut_through_error)))
unfolding aggregate summed with_offset new_transaction body_of
aggregate-IsAggregate lib hashes t1 t2 txs =
    let all = t1 ∷ t2 ∷ txs in
    let (res, balanced, outcome) =
      cut_through-IsBalanced input_commit output_commit (hashes.commit_hash) (output_key hashes)
        (all_inputs hashes all) (all_outputs all) in
    elim outcome [
      | inl (unique, done) ↦
          inl (body_of hashes all res, body_of-IsAggregate hashes all res balanced, rw done refl)
      | inr (twice, failed) ↦ inr (res, balanced, twice, rw failed refl)
    ]
