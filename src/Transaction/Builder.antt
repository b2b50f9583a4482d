-- ===== src/Transaction/Builder.antt =====
-- core/src/core/transaction.rs: a body with one more input, output or kernel. The vectors are sorted,
-- so binary_search finds an equal element or the place of the new one.
use grin.Prelude.{ℕ, List, [], ◌∷◌, ltb, ◌==◌, if◌then◌else◌}
use grin.Transaction.Types.{
  Output, Input, TxKernel, Inputs, commit_only, features_and_commit, TransactionBody, Hashes,
}

module _ {A : Type 0} (key : A → ℕ) where
  -- `if let Err(e) = v.binary_search(&x) { v.insert(e, x) }`, by the keys that Ord compares.
  unfoldable pub insert_new : A → List A → List A
  insert_new x [] = x ∷ []
  insert_new x (y ∷ ys) =
      let rest = insert_new x ys in
      if ltb (key x) (key y) then x ∷ y ∷ ys else if key x == key y then y ∷ ys else y ∷ rest

unfoldable pub insert_input : Hashes → Input → Inputs → Inputs
insert_input hashes input (commit_only inputs) =
    commit_only (insert_new (hashes.commit_hash) (record { commit = input.commit }) inputs)
insert_input hashes input (features_and_commit inputs) =
    features_and_commit (insert_new (hashes.input_hash) input inputs)

unfoldable pub with_input : Hashes → Input → TransactionBody → TransactionBody
with_input hashes input body = record {
  inputs = insert_input hashes input (body.inputs);
  outputs = body.outputs;
  kernels = body.kernels;
}

unfoldable pub with_output : Hashes → Output → TransactionBody → TransactionBody
with_output hashes output body = record {
  inputs = body.inputs;
  outputs = insert_new (λ (o : Output). hashes.output_hash (o.identifier)) output (body.outputs);
  kernels = body.kernels;
}

unfoldable pub with_kernel : Hashes → TxKernel → TransactionBody → TransactionBody
with_kernel hashes kernel body = record {
  inputs = body.inputs;
  outputs = body.outputs;
  kernels = insert_new (hashes.kernel_hash) kernel (body.kernels);
}

unfoldable pub replace_inputs : Inputs → TransactionBody → TransactionBody
replace_inputs inputs body = record {
  inputs = inputs;
  outputs = body.outputs;
  kernels = body.kernels;
}

unfoldable pub replace_outputs : List Output → TransactionBody → TransactionBody
replace_outputs outputs body = record {
  inputs = body.inputs;
  outputs = outputs;
  kernels = body.kernels;
}

unfoldable pub replace_kernel : TxKernel → TransactionBody → TransactionBody
replace_kernel kernel body = record {
  inputs = body.inputs;
  outputs = body.outputs;
  kernels = kernel ∷ [];
}

unfoldable pub empty_body : TransactionBody
empty_body = record { inputs = commit_only []; outputs = []; kernels = [] }
