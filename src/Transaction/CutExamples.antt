-- ===== src/Transaction/CutExamples.antt =====
-- core/src/core/transaction.rs: cut_through and aggregate at concrete transactions.
use grin.Prelude.{ℕ, ◌-◌, ◌≡◌, ◌⊎◌, refl, [], ◌∷◌, some, ok, err, true}
use grin.Prelude.Try.{◌>>=◌}
use grin.Transaction.Errors.{cut_through as cut_through_error}
use grin.Transaction.Kernel.{KernelFeatures}
use grin.Transaction.Types.{
  Output, OutputFeatures, CommitWrapper, commit_only, TransactionBody, Hashes,
}
use grin.Transaction.TxCodec.{Transaction}
use grin.Transaction.CutThrough.{
  CutResult, cut_through, cut_loop, cut_round, shift_loop, swap, split_cut, check_cut,
}
use grin.Prelude.Sorting.{sort, insert, any_adjacent}
use grin.Prelude.{sum}
use grin.Transaction.CutCounts.{IsBalanced, IsUnique, cut_through-IsBalanced}
use grin.Transaction.Sums.{Secp, sum_kernel_offsets}
use grin.Transaction.Aggregate.{output_key, committed_error, all_inputs, all_outputs, aggregate}
use grin.Transaction.AggregateCounts.{
  input_commit, output_commit, IsAggregate, aggregate-IsAggregate,
}

abbrev same : ℕ → ℕ
same n = n

cut_through-IsBalanced_example :
    (res : CutResult ℕ ℕ) × IsBalanced same same same same (5 ∷ 3 ∷ 9 ∷ []) (9 ∷ 4 ∷ 3 ∷ []) res
    × ((IsUnique same same same same res
          × (cut_through same same same same (5 ∷ 3 ∷ 9 ∷ []) (9 ∷ 4 ∷ 3 ∷ []) ≡ some (ok res)))
        ⊎ ((¬ IsUnique same same same same res)
            × (cut_through same same same same (5 ∷ 3 ∷ 9 ∷ []) (9 ∷ 4 ∷ 3 ∷ [])
                ≡ some (err cut_through_error))))
cut_through-IsBalanced_example =
    cut_through-IsBalanced same same same same (5 ∷ 3 ∷ 9 ∷ []) (9 ∷ 4 ∷ 3 ∷ [])

-- A library that adds offsets and accepts all.
abbrev adding : Secp
adding = record {
  is_key = λ k. true;
  blind_sum = λ pos neg. some (sum pos - sum neg);
  commit_sum = λ pos neg. some 0;
  commit_value = λ v. v;
  commit_key = λ k. some k;
  zero_commit = 0;
  to_pubkey = λ c. some c;
  sig_msg = λ f. some 1;
  verify_batch = λ a b c. true;
  verify_proofs = λ a b. true;
}

abbrev plain_hashes : Hashes
plain_hashes = record {
  commit_hash = λ c. c.commit;
  input_hash = λ i. i.commit;
  output_hash = λ o. o.commit;
  kernel_hash = λ k. k.excess;
}

abbrev paying : ℕ → ℕ → ℕ → ℕ → Transaction
paying from to excess offset = record {
  offset = offset;
  body = record {
    inputs = commit_only (record { commit = from } ∷ []);
    outputs =
        record { identifier = record { features = OutputFeatures.plain; commit = to }; proof = [] }
        ∷ [];
    kernels =
        record {
          features = KernelFeatures.plain (record { bits = 9 });
          excess = excess;
          excess_sig = 1;
        }
        ∷ [];
  };
}

-- The second spends what the first makes.
aggregate-IsAggregate_example :
    ((body : TransactionBody) × IsAggregate plain_hashes
        (paying 1 2 7 10 ∷ paying 2 3 8 20 ∷ [])
        body
      × (aggregate adding plain_hashes (paying 1 2 7 10 ∷ paying 2 3 8 20 ∷ [])
          ≡ some (
              committed_error (sum_kernel_offsets adding (10 ∷ 20 ∷ []) []) >>= λ offset.
              ok (record { offset = offset; body = body }))))
    ⊎ ((res : CutResult CommitWrapper Output) × IsBalanced input_commit output_commit
          (plain_hashes.commit_hash)
          (output_key plain_hashes)
          (all_inputs plain_hashes (paying 1 2 7 10 ∷ paying 2 3 8 20 ∷ []))
          (all_outputs (paying 1 2 7 10 ∷ paying 2 3 8 20 ∷ []))
          res
        × (¬ IsUnique input_commit output_commit
            (plain_hashes.commit_hash)
            (output_key plain_hashes)
            res)
        × (aggregate adding plain_hashes (paying 1 2 7 10 ∷ paying 2 3 8 20 ∷ [])
            ≡ some (err cut_through_error)))
aggregate-IsAggregate_example =
    aggregate-IsAggregate adding plain_hashes (paying 1 2 7 10) (paying 2 3 8 20) []

cut_three :
    cut_through same same same same (5 ∷ 3 ∷ 9 ∷ []) (9 ∷ 4 ∷ 3 ∷ [])
    ≡ some (
        ok (record {
          inputs = 5 ∷ [];
          outputs = 4 ∷ [];
          inputs_cut = 3 ∷ 9 ∷ [];
          outputs_cut = 3 ∷ 9 ∷ [];
        }))
unfolding cut_through cut_loop cut_round shift_loop swap split_cut check_cut sort insert
    any_adjacent
cut_three = refl
