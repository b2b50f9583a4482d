-- ===== src/Transaction/Sums.antt =====
-- core/src/core/committed.rs: sums of commitments and of offsets. The curve is the secp256k1 library's,
-- and keys, commitments and offsets are numbers.
use grin.Prelude.{
  ℕ, ◌-◌, ◌^◌, List, [], ◌∷◌, ◌++◌, Bool, not, ltb, ◌==◌, if◌then◌else◌, Option, some, none, Result,
  ok, err,
}
use grin.Prelude.Try.{◌>>=◌}
use grin.Transaction.Kernel.{KernelFeatures}
use grin.Transaction.Types.{
  TransactionBody, Hashes, inputs_committed, outputs_committed, kernels_committed,
}

-- What the sums and the signatures ask of the library.
pub record Secp : Type 0 where
  pub is_key : ℕ → Bool
  pub blind_sum : List ℕ → List ℕ → Option ℕ
  pub commit_sum : List ℕ → List ℕ → Option ℕ
  pub commit_value : ℕ → ℕ
  pub commit_key : ℕ → Option ℕ
  pub zero_commit : ℕ
  pub to_pubkey : ℕ → Option ℕ
  pub sig_msg : KernelFeatures → Option ℕ
  pub verify_batch : List ℕ → List ℕ → List ℕ → Bool
  pub verify_proofs : List ℕ → List (List ℕ) → Bool

pub data CommittedError : Type 0 where
  secp : CommittedError
  keychain : CommittedError
  kernel_sum_mismatch : CommittedError
  invalid_value : CommittedError

abbrev pub or_err {ℓ κ} : {E : Type ℓ} {A : Type κ} → Option A → E → Result E A
or_err (some a) e = ok a
or_err none e = err e

-- `retain` and `filter`.
unfoldable pub retain : (ℕ → Bool) → List ℕ → List ℕ
retain keep [] = []
retain keep (x ∷ xs) = let rest = retain keep xs in if keep x then x ∷ rest else rest

module _ (lib : Secp) where
  unfoldable pub sum_commits : List ℕ → List ℕ → Result CommittedError ℕ
  sum_commits positive negative =
      let keep = λ (x : ℕ). not (x == lib.zero_commit) in
      or_err (lib.commit_sum (retain keep positive) (retain keep negative)) secp

  -- Zero is left out, and so is what is no key.
  unfoldable pub to_secrets : List ℕ → List ℕ
  to_secrets factors = retain (lib.is_key) (retain (λ (x : ℕ). not (x == 0)) factors)

  unfoldable pub sum_of_keys : List ℕ → List ℕ → Result CommittedError ℕ
  sum_of_keys [] negative = ok 0
  sum_of_keys (x ∷ xs) negative = or_err (lib.blind_sum (x ∷ xs) negative) secp

  unfoldable pub sum_kernel_offsets : List ℕ → List ℕ → Result CommittedError ℕ
  sum_kernel_offsets positive negative = sum_of_keys (to_secrets positive) (to_secrets negative)

  unfoldable pub offset_commits : ℕ → ℕ → Result CommittedError (List ℕ)
  offset_commits kernel_sum offset =
      if offset == 0
      then ok (kernel_sum ∷ [])
      else if lib.is_key offset
      then (do c ← or_err (lib.commit_key offset) secp; ok (kernel_sum ∷ c ∷ []))
      else err keychain

  unfoldable pub sum_kernel_excesses : TransactionBody → ℕ → Result CommittedError (ℕ × ℕ)
  sum_kernel_excesses body offset = do
    kernel_sum ← sum_commits (kernels_committed body) []
    commits ← offset_commits kernel_sum offset
    total ← or_err (lib.commit_sum commits []) secp
    ok (kernel_sum, total)

  -- The overage is an i64 by its 64 bits: checked_abs fails at the lowest one.
  unfoldable pub sum_commitments : Hashes → TransactionBody → ℕ → Result CommittedError ℕ
  sum_commitments hashes body overage =
      let ins = inputs_committed hashes body in
      let outs = outputs_committed body in
      if overage == 0
      then sum_commits outs ins
      else if ltb overage (2 ^ 63)
      then sum_commits (outs ++ lib.commit_value overage ∷ []) ins
      else if overage == 2 ^ 63
      then err invalid_value
      else sum_commits outs (ins ++ lib.commit_value (2 ^ 64 - overage) ∷ [])

  unfoldable pub match_sums : ℕ → ℕ × ℕ → Result CommittedError (ℕ × ℕ)
  match_sums utxo_sum sums =
      if utxo_sum == sums.1 then ok (utxo_sum, sums.0) else err kernel_sum_mismatch

  unfoldable pub verify_kernel_sums :
      Hashes → TransactionBody → ℕ → ℕ → Result CommittedError (ℕ × ℕ)
  verify_kernel_sums hashes body overage offset = do
    utxo_sum ← sum_commitments hashes body overage
    sums ← sum_kernel_excesses body offset
    match_sums utxo_sum sums
