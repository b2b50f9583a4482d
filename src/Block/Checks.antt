-- ===== src/Block/Checks.antt =====
-- core/src/core/block.rs: the checks of a block, and how one is put together. The curve is the secp256k1
-- library's, as in the checks of a transaction.
use grin.Prelude.{
  ℕ, Option, some, List, [], ◌∷◌, ◌++◌, Bool, any, ltb, ◌==◌, if◌then◌else◌, not, add64, Result, ok,
  err,
}
use grin.Prelude.Try.{◌>>=◌, ◌>>◌}
use grin.Global.Chain.{ChainTypes}
use grin.Consensus.Params.{reward}
use grin.Consensus.Version.{header_version}
use grin.Pow.Difficulty.{default_pow}
use grin.Transaction.Errors as Errors
use grin.Transaction.Kernel.{KernelFeatures, height_locked, is_nrd, is_coinbase}
use grin.Transaction.Types.{
  Hashes, Output, TxKernel, CommitWrapper, commit_only, is_coinbase_output,
}
use grin.Transaction.Body.{as_block, body_fee}
use grin.Transaction.Body as Body
use grin.Transaction.TxCodec.{Transaction}
use grin.Transaction.CutThrough.{CutResult}
use grin.Transaction.CutThrough as CutThrough
use grin.Transaction.Sums.{Secp, CommittedError, or_err, sum_kernel_offsets, verify_kernel_sums}
use grin.Transaction.Aggregate.{
  validate_body, aggregate, tx_with_output, tx_with_kernel, cut_inputs_outputs, all_inputs,
  all_outputs, all_kernels, sorted_body,
}
use grin.Block.Header.{
  Block, BlockHeader, BlockError, transaction, committed, secp, kernel_lock_height,
  nrd_kernel_pre_hf3, nrd_kernel_not_enabled, coinbase_sum_mismatch, total_difficulty,
  default_header, header_overage,
}

abbrev pub from_transaction {ℓ} : {A : Type ℓ} → Result Errors.Error A → Result BlockError A
from_transaction (ok a) = ok a
from_transaction (err e) = err (transaction e)

abbrev pub from_committed {ℓ} : {A : Type ℓ} → Result CommittedError A → Result BlockError A
from_committed (ok a) = ok a
from_committed (err e) = err committed

abbrev pub check_lock_height : ℕ → KernelFeatures → Result BlockError (Unit {0})
check_lock_height height (height_locked fee lock_height) =
    if ltb height lock_height then err (kernel_lock_height lock_height) else ok tt
check_lock_height height _ = ok tt

unfoldable pub verify_kernel_lock_heights : ℕ → List TxKernel → Result BlockError (Unit {0})
verify_kernel_lock_heights height [] = ok tt
verify_kernel_lock_heights height (k ∷ ks) =
    check_lock_height height (k.features) >> verify_kernel_lock_heights height ks

unfoldable pub verify_nrd_kernels_for_header_version : Bool → Block → Result BlockError (Unit {0})
verify_nrd_kernels_for_header_version nrd_enabled b =
    let by_version : Result BlockError (Unit {0}) =
      if ltb (b.header.version) 4 then err nrd_kernel_pre_hf3 else ok tt in
    let by_flag = if not nrd_enabled then err nrd_kernel_not_enabled else by_version in
    if any (λ (k : TxKernel). is_nrd (k.features)) (b.body.kernels) then by_flag else ok tt

abbrev pub coinbase_outputs : List Output → List ℕ
coinbase_outputs [] = []
coinbase_outputs (o ∷ os) =
    let rest = coinbase_outputs os in
    if is_coinbase_output (o.identifier.features) then o.identifier.commit ∷ rest else rest

abbrev pub coinbase_kernels : List TxKernel → List ℕ
coinbase_kernels [] = []
coinbase_kernels (k ∷ ks) =
    let rest = coinbase_kernels ks in if is_coinbase (k.features) then k.excess ∷ rest else rest

abbrev pub total_fees : Block → ℕ
total_fees b = body_fee (b.body)

module _ (lib : Secp) where
  -- commit_value is total: it fails only for a context that cannot commit, which the static one can.
  unfoldable pub verify_coinbase : Block → Result BlockError (Unit {0})
  verify_coinbase b = do
    let over_commit = lib.commit_value (reward (total_fees b))
    out_adjust_sum ←
        or_err (lib.commit_sum (coinbase_outputs (b.body.outputs)) (over_commit ∷ [])) secp
    kerns_sum ← or_err (lib.commit_sum (coinbase_kernels (b.body.kernels)) []) secp
    (if kerns_sum == out_adjust_sum then ok tt else err coinbase_sum_mismatch)

  unfoldable pub block_kernel_offset : ℕ → Block → Result BlockError ℕ
  block_kernel_offset prev_kernel_offset b =
      if b.header.total_kernel_offset == prev_kernel_offset
      then ok 0
      else from_committed
          (sum_kernel_offsets lib (b.header.total_kernel_offset ∷ []) (prev_kernel_offset ∷ []))

  module _ (chain : ChainTypes) (nrd_enabled : Bool) (hashes : Hashes) where
    unfoldable pub validate_read : Block → Result BlockError (Unit {0})
    validate_read b =
        from_transaction (Body.validate_read chain nrd_enabled hashes as_block (b.body))
        >> verify_kernel_lock_heights (b.header.height) (b.body.kernels)

    unfoldable pub validate : ℕ → Block → Result BlockError (Unit {0})
    validate prev_kernel_offset b =
        from_transaction (validate_body lib chain nrd_enabled hashes as_block (b.body))
        >> (verify_kernel_lock_heights (b.header.height) (b.body.kernels)
            >> (verify_nrd_kernels_for_header_version nrd_enabled b
                >> (verify_coinbase b >> (do
                  offset ← block_kernel_offset prev_kernel_offset b
                  sums ←
                      from_committed (verify_kernel_sums lib hashes (b.body) header_overage offset)
                  ok tt))))

abbrev pub with_reward : Output → TxKernel → Block → Block
with_reward reward_out reward_kern b = record b {
  body = record (b.body) { outputs = reward_out ∷ []; kernels = reward_kern ∷ [] };
}

-- The header over an aggregated transaction. `hash` is the hash of a header and `now` the time.
module _ (lib : Secp) (hashes : Hashes) (chain : ChainTypes) (hash : BlockHeader → ℕ)
    (now : ℕ) where
  abbrev pub next_header : BlockHeader → ℕ → ℕ → BlockHeader
  next_header prev difficulty total_kernel_offset = record (default_header chain) {
    version = header_version chain (add64 (prev.height) 1);
    height = add64 (prev.height) 1;
    timestamp = now;
    prev_hash = hash prev;
    total_kernel_offset = total_kernel_offset;
    pow = record (default_pow chain) {
      total_difficulty = add64 difficulty (total_difficulty prev);
    };
  }

  unfoldable pub reward_block :
      BlockHeader
      → Output
      → TxKernel
      → ℕ
      → Result Errors.Error Transaction
      → Result BlockError Block
  reward_block prev reward_out reward_kern difficulty (err e) = err (transaction e)
  reward_block prev reward_out reward_kern difficulty (ok tx) = do
    let agg_tx = tx_with_kernel hashes reward_kern (tx_with_output hashes reward_out tx)
    offset ←
        from_committed (sum_kernel_offsets lib (agg_tx.offset ∷ prev.total_kernel_offset ∷ []) [])
    ok (record { header = next_header prev difficulty offset; body = agg_tx.body })

  unfoldable pub from_reward :
      BlockHeader → List Transaction → Output → TxKernel → ℕ → Option (Result BlockError Block)
  from_reward prev txs reward_out reward_kern difficulty =
      CutThrough.and_then (aggregate lib hashes txs)
        (λ tx. some (reward_block prev reward_out reward_kern difficulty tx))

-- core/src/core/compact_block.rs: what hydrate_from reads of a compact block.
pub record CompactBlock : Type 0 where
  pub header : BlockHeader
  pub out_full : List Output
  pub kern_full : List TxKernel

module _ (hashes : Hashes) where
  unfoldable pub hydrated :
      CompactBlock
      → List TxKernel
      → Result Errors.Error (CutResult CommitWrapper Output)
      → Result BlockError Block
  hydrated cb kernels (err e) = err (transaction e)
  hydrated cb kernels (ok res) = ok (record {
    header = cb.header;
    body =
        sorted_body hashes (commit_only (res.inputs)) (res.outputs ++ cb.out_full)
          (kernels ++ cb.kern_full);
  })

  unfoldable pub hydrate_from : CompactBlock → List Transaction → Option (Result BlockError Block)
  hydrate_from cb txs =
      CutThrough.and_then (cut_inputs_outputs hashes (all_inputs hashes txs) (all_outputs txs))
        (λ res. some (hydrated cb (all_kernels txs) res))
