-- ===== src/Transaction/BodyCodec.antt =====
-- core/src/core/transaction.rs: the binary format of inputs, outputs, kernels and bodies.
use grin.Prelude.{ℕ, Bool, leb, ltb, ◌==◌, if◌then◌else◌, List, length, Result, ok, err}
use grin.Ser.Types.{
  ByteOrder, corrupted_data, too_large_read_err, unsupported_protocol_version, is_hash_mode,
}
use grin.Ser.Stream.{Stream, pure, fail, ◌>>=◌}
use grin.Ser.Writer.{Writer, write_u8, write_u64, write_all}
use grin.Ser.Reader.{Reader, read_multi}
use grin.Ser.Fields.{
  write_commitment, write_signature, write_range_proof, read_commitment, read_signature,
  read_range_proof,
}
use grin.Global.Chain.{ChainTypes, max_block_weight}
use grin.Transaction.Errors.{Error as TransactionError}
use grin.Transaction.KernelCodec as KernelCodec
use grin.Transaction.Types.{
  OutputFeatures, OutputIdentifier, Output, Input, CommitWrapper, TxKernel, Inputs, commit_only,
  features_and_commit, TransactionBody, Hashes, inputs_len, to_commits,
}
use grin.Transaction.Body.{weight_by_iok, verify_sorted}

unfoldable pub write_output_features : OutputFeatures → Stream Writer (Unit {0})
write_output_features OutputFeatures.plain = write_u8 0
write_output_features OutputFeatures.coinbase = write_u8 1

unfoldable pub write_input : Input → Stream Writer (Unit {0})
write_input input = do _ ← write_output_features (input.features); write_commitment (input.commit)

unfoldable pub write_commit_wrapper : CommitWrapper → Stream Writer (Unit {0})
write_commit_wrapper wrapper = write_commitment (wrapper.commit)

unfoldable pub write_identifier : OutputIdentifier → Stream Writer (Unit {0})
write_identifier identifier = do
  _ ← write_output_features (identifier.features)
  write_commitment (identifier.commit)

-- The two kinds of inputs, where the mode is full.
unfoldable pub write_inputs_full : Hashes → Inputs → Stream Writer (Unit {0})
write_inputs_full hashes (commit_only inputs) w =
    if leb (w.version) 2
    then err unsupported_protocol_version
    else write_all write_commit_wrapper inputs w
write_inputs_full hashes (features_and_commit inputs) w =
    if leb (w.version) 2
    then write_all write_input inputs w
    else write_all write_commit_wrapper (to_commits hashes (features_and_commit inputs)) w

unfoldable pub write_inputs_hash : Inputs → Stream Writer (Unit {0})
write_inputs_hash (commit_only inputs) = write_all write_commit_wrapper inputs
write_inputs_hash (features_and_commit inputs) = write_all write_input inputs

unfoldable pub write_inputs : Hashes → Inputs → Stream Writer (Unit {0})
write_inputs hashes inputs w =
    if inputs_len inputs == 0
    then ok (tt, w)
    else if is_hash_mode (w.mode)
    then write_inputs_hash inputs w
    else write_inputs_full hashes inputs w

module _ (order : ByteOrder) where
  unfoldable pub write_output : Output → Stream Writer (Unit {0})
  write_output output = do
    _ ← write_identifier (output.identifier)
    write_range_proof order (output.proof)

  unfoldable pub write_kernel : TxKernel → Stream Writer (Unit {0})
  write_kernel kernel = do
    _ ← KernelCodec.write order (kernel.features)
    _ ← write_commitment (kernel.excess)
    write_signature (kernel.excess_sig)

  unfoldable pub write_body : Hashes → TransactionBody → Stream Writer (Unit {0})
  write_body hashes body = do
    _ ← write_u64 order (inputs_len (body.inputs))
    _ ← write_u64 order (length (body.outputs))
    _ ← write_u64 order (length (body.kernels))
    _ ← write_inputs hashes (body.inputs)
    _ ← write_all write_output (body.outputs)
    write_all write_kernel (body.kernels)

module _ {S : Type 0} (r : Reader S) where
  unfoldable pub features_from_u8 : ℕ → Stream S OutputFeatures
  features_from_u8 byte =
      if byte == 0
      then pure OutputFeatures.plain
      else if byte == 1
      then pure OutputFeatures.coinbase
      else fail corrupted_data

  unfoldable pub read_output_features : Stream S OutputFeatures
  read_output_features = do byte ← r.read_u8; features_from_u8 byte

  unfoldable pub read_input : Stream S Input
  read_input = do
    features ← read_output_features
    commit ← read_commitment r
    pure (record { features = features; commit = commit })

  unfoldable pub read_commit_wrapper : Stream S CommitWrapper
  read_commit_wrapper = do commit ← read_commitment r; pure (record { commit = commit })

  unfoldable pub read_identifier : Stream S OutputIdentifier
  read_identifier = do
    features ← read_output_features
    commit ← read_commitment r
    pure (record { features = features; commit = commit })

  unfoldable pub read_output : Stream S Output
  read_output = do
    identifier ← read_identifier
    proof ← read_range_proof r
    pure (record { identifier = identifier; proof = proof })

  unfoldable pub read_kernel : Bool → Stream S TxKernel
  read_kernel nrd_enabled = do
    features ← KernelCodec.read r nrd_enabled
    excess ← read_commitment r
    excess_sig ← read_signature r
    pure (record { features = features; excess = excess; excess_sig = excess_sig })

  unfoldable pub as_commits : List CommitWrapper → Stream S Inputs
  as_commits inputs = pure (commit_only inputs)

  unfoldable pub as_inputs : List Input → Stream S Inputs
  as_inputs inputs = pure (features_and_commit inputs)

  unfoldable pub read_inputs : ℕ → Stream S Inputs
  read_inputs num_inputs s =
      let old = (read_multi read_input num_inputs >>= as_inputs) s in
      let new = (read_multi read_commit_wrapper num_inputs >>= as_commits) s in
      if leb (r.protocol_version s) 2 then old else new

  -- TransactionBody::init with `verify_sorted`, its error mapped.
  unfoldable pub sorted_body :
      Result TransactionError (Unit {0}) → TransactionBody → Stream S TransactionBody
  sorted_body (ok u) body = pure body
  sorted_body (err e) body = fail corrupted_data

  unfoldable pub read_parts : Bool → Hashes → ℕ → ℕ → ℕ → Stream S TransactionBody
  read_parts nrd_enabled hashes num_inputs num_outputs num_kernels = do
    inputs ← read_inputs num_inputs
    outputs ← read_multi read_output num_outputs
    kernels ← read_multi (read_kernel nrd_enabled) num_kernels
    let body : TransactionBody = record { inputs = inputs; outputs = outputs; kernels = kernels }
    sorted_body (verify_sorted hashes body) body

  unfoldable pub guard_weight : ChainTypes → ℕ → Stream S TransactionBody → Stream S TransactionBody
  guard_weight chain weight rest =
      if ltb (max_block_weight chain) weight then fail too_large_read_err else rest

  unfoldable pub read_body : ChainTypes → Bool → Hashes → Stream S TransactionBody
  read_body chain nrd_enabled hashes = do
    num_inputs ← r.read_u64
    num_outputs ← r.read_u64
    num_kernels ← r.read_u64
    guard_weight chain (weight_by_iok num_inputs num_outputs num_kernels)
        (read_parts nrd_enabled hashes num_inputs num_outputs num_kernels)
