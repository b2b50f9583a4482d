-- ===== src/Block/Examples.antt =====
-- core/src/core/block.rs: a block with its coinbase alone.
use grin.Prelude.{ℕ, ◌+◌, ◌-◌, ◌≤◌, ◌≡◌, ◌↔◌, refl, List, [], ◌∷◌, some, true, All, ok, replicate}
use grin.Global.Chain.{ChainTypes}
use grin.Transaction.Kernel.{KernelFeatures}
use grin.Transaction.Types.{TxKernel, OutputFeatures, commit_only, Hashes}
use grin.Transaction.Body.{as_block}
use grin.Transaction.Sums.{Secp}
use grin.Transaction.Aggregate.{validate_body}
use grin.Block.Header.{Block, default_header}
use grin.Block.Checks.{validate}
use grin.Transaction.Aggregate.{batch_sig_verify, batch_verify_proofs, pubkeys}
use grin.Transaction.Body.{
  validate_read, verify_weight, max_weight_for, weight, weight_by_iok, verify_no_nrd_duplicates,
  nrd_excess, verify_sorted, to_error, verify_sorted_and_unique, input_hashes, body_fee, fold_fee,
  inputs_outputs_committed, kernel_fees, verify_cut_through,
}
use grin.Global.Chain.{max_block_weight}
use grin.Transaction.Types.{
  inputs_len, inputs_committed, is_coinbase_output, kernels_committed, outputs_committed,
  to_commits,
}
use grin.Prelude.Sorting.{sort, dedup, any_adjacent, insert}
use grin.Transaction.Kernel.{is_nrd, is_coinbase}
use grin.Block.Checks.{
  block_kernel_offset, verify_coinbase, verify_kernel_lock_heights,
  verify_nrd_kernels_for_header_version,
}
use grin.Block.Header.{header_overage}
use grin.Consensus.Params.{reward}
use grin.Global.Limits.{max_tx_weight}
use grin.Transaction.Fee.{fee}
use grin.Transaction.Sums.{
  match_sums, offset_commits, retain, sum_commitments, sum_commits, sum_kernel_excesses,
  sum_kernel_offsets, sum_of_keys, to_secrets, verify_kernel_sums,
}
use grin.Block.Validation.{lock_of, IsNrdOpen, IsRewarded, IsBalancedBlock, validate_iff}

abbrev sum : List ℕ → ℕ
sum [] = 0
sum (x ∷ xs) = x + sum xs

-- A commitment is its value here, and all signatures and proofs hold.
abbrev values : Secp
values = record {
  is_key = λ k. true;
  blind_sum = λ pos neg. some (sum pos - sum neg);
  commit_sum = λ pos neg. some (sum pos - sum neg);
  commit_value = λ v. v;
  commit_key = λ k. some k;
  zero_commit = 0;
  to_pubkey = λ k. some k;
  sig_msg = λ f. some 0;
  verify_batch = λ sigs msgs keys. true;
  verify_proofs = λ commits proofs. true;
}

abbrev plain_hashes : Hashes
plain_hashes = record {
  commit_hash = λ c. c.commit;
  input_hash = λ i. i.commit;
  output_hash = λ o. o.commit;
  kernel_hash = λ k. k.excess;
}

-- The reward of 60 grin, blinded with 5.
abbrev mined : Block
mined = record {
  header = record (default_header ChainTypes.mainnet) { height = 1 };
  body = record {
    inputs = commit_only [];
    outputs =
        record {
          identifier = record { features = OutputFeatures.coinbase; commit = 60_000_000_005 };
          proof = replicate 675 1;
        }
        ∷ [];
    kernels = record { features = KernelFeatures.coinbase; excess = 5; excess_sig = 1 } ∷ [];
  };
}

validate_iff_example : (validate values ChainTypes.mainnet true plain_hashes 0 mined ≡ ok tt) ↔ (
    (validate_body values ChainTypes.mainnet true plain_hashes as_block (mined.body) ≡ ok tt)
    × (All (λ (k : TxKernel). lock_of (k.features) ≤ mined.header.height) (mined.body.kernels)
        × (IsNrdOpen true mined
            × (IsRewarded values mined × IsBalancedBlock values plain_hashes 0 mined))))
validate_iff_example = validate_iff values ChainTypes.mainnet true plain_hashes 0 mined

mined_is_valid : validate values ChainTypes.mainnet true plain_hashes 0 mined ≡ ok tt
unfolding validate validate_body validate_read verify_weight max_weight_for max_block_weight weight
    weight_by_iok inputs_len verify_no_nrd_duplicates sort nrd_excess is_nrd dedup verify_sorted
    to_error verify_sorted_and_unique input_hashes block_kernel_offset verify_coinbase
    verify_kernel_lock_heights verify_nrd_kernels_for_header_version header_overage reward
    max_tx_weight any_adjacent insert batch_sig_verify batch_verify_proofs pubkeys body_fee fold_fee
    inputs_outputs_committed kernel_fees verify_cut_through fee is_coinbase match_sums
    offset_commits retain sum_commitments sum_commits sum_kernel_excesses sum_kernel_offsets
    sum_of_keys to_secrets verify_kernel_sums inputs_committed is_coinbase_output kernels_committed
    outputs_committed to_commits
mined_is_valid = refl
