-- ===== src/Transaction/Types.antt =====
-- core/src/core/transaction.rs: inputs, outputs, kernels and the body. A commitment is 33 bytes,
-- which stand here as the number with these digits, whose order is that of the bytes. A signature
-- is the number of its 64 bytes, and a range proof the bytes up to its length.
use grin.Prelude.{ℕ, List, map, length, Bool, true, false}
use grin.Prelude.Sorting.{sort}
use grin.Transaction.Kernel.{KernelFeatures}

pub data OutputFeatures : Type 0 where
  plain : OutputFeatures
  coinbase : OutputFeatures

unfoldable pub is_coinbase_output : OutputFeatures → Bool
is_coinbase_output plain = false
is_coinbase_output coinbase = true

pub record OutputIdentifier : Type 0 where
  pub features : OutputFeatures
  pub commit : ℕ

pub record Output : Type 0 where
  pub identifier : OutputIdentifier
  pub proof : List ℕ

pub record Input : Type 0 where
  pub features : OutputFeatures
  pub commit : ℕ

pub record CommitWrapper : Type 0 where
  pub commit : ℕ

pub record TxKernel : Type 0 where
  pub features : KernelFeatures
  pub excess : ℕ
  pub excess_sig : ℕ

pub data Inputs : Type 0 where
  commit_only : List CommitWrapper → Inputs
  features_and_commit : List Input → Inputs

pub record TransactionBody : Type 0 where
  pub inputs : Inputs
  pub outputs : List Output
  pub kernels : List TxKernel

-- The hashes by which hashable_ord! compares, as numbers. The hash function is the blake2 crate's.
pub record Hashes : Type 0 where
  pub commit_hash : CommitWrapper → ℕ
  pub input_hash : Input → ℕ
  pub output_hash : OutputIdentifier → ℕ
  pub kernel_hash : TxKernel → ℕ

unfoldable pub inputs_len : Inputs → ℕ
inputs_len (commit_only inputs) = length inputs
inputs_len (features_and_commit inputs) = length inputs

-- From<Inputs> for Vec<CommitWrapper>.
unfoldable pub to_commits : Hashes → Inputs → List CommitWrapper
to_commits hashes (commit_only inputs) = inputs
to_commits hashes (features_and_commit inputs) =
    sort (hashes.commit_hash) (map (λ (i : Input). record { commit = i.commit }) inputs)

unfoldable pub inputs_committed : Hashes → TransactionBody → List ℕ
inputs_committed hashes body =
    map (λ (c : CommitWrapper). c.commit) (to_commits hashes (body.inputs))

unfoldable pub outputs_committed : TransactionBody → List ℕ
outputs_committed body = map (λ (o : Output). o.identifier.commit) (body.outputs)

unfoldable pub kernels_committed : TransactionBody → List ℕ
kernels_committed body = map (λ (k : TxKernel). k.excess) (body.kernels)
