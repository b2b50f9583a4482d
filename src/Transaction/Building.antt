-- ===== src/Transaction/Building.antt =====
-- core/src/core/transaction.rs: with_input, with_output and with_kernel keep a body in order.
use grin.Prelude.{
  ℕ, ◌<◌, ◌≡◌, inl, inr, arith, List, [], ◌∷◌, map, All, ltb, ◌==◌, ltb→lt, Bool-cases, ok,
}
use grin.Transaction.Types.{
  Output, Input, TxKernel, Inputs, commit_only, features_and_commit, TransactionBody, Hashes,
}
use grin.Transaction.Body.{input_hashes, verify_sorted}
use grin.Transaction.Checks.{IsAscending}
use grin.Transaction.Validation.{IsOrdered, verify_sorted_iff}
use grin.Transaction.Builder.{insert_new, insert_input, with_input, with_output, with_kernel}

module _ {A : Type 0} (key : A → ℕ) where
  All-insert_new :
      (k : ℕ) (x : A) (xs : List A)
      → k < key x
      → All (λ z. k < z) (map key xs)
      → All (λ z. k < z) (map key (insert_new key x xs))
  unfolding insert_new
  All-insert_new k x [] lt h = (lt, tt)
  All-insert_new k x (y ∷ ys) lt h = elim (Bool-cases (ltb (key x) (key y))) [
    | inl before ↦ rw before (lt, h)
    | inr after ↦ elim (Bool-cases (key x == key y)) [
      | inl same ↦ rw (after, same) h
      | inr apart ↦ rw (after, apart) (h.0, All-insert_new k x ys lt (h.1))
    ]
  ]

  above : (k n : ℕ) (ns : List ℕ) → k < n → All (λ z. n < z) ns → All (λ z. k < z) ns
  above k n [] lt h = tt
  above k n (m ∷ ns) lt h = (let nm = h.0 in omega arith, above k n ns lt (h.1))

  insert_new-IsAscending :
      (x : A) (xs : List A) → IsAscending (map key xs) → IsAscending (map key (insert_new key x xs))
  unfolding insert_new IsAscending
  insert_new-IsAscending x [] h = (tt, tt)
  insert_new-IsAscending x (y ∷ ys) h = elim (Bool-cases (ltb (key x) (key y))) [
    | inl before ↦
        let lt = ltb→lt (key x) (key y) before in
        rw before ((lt, above (key x) (key y) (map key ys) lt (h.0)), h)
    | inr after ↦ elim (Bool-cases (key x == key y)) [
      | inl same ↦ rw (after, same) h
      | inr apart ↦
          let gt : key y < key x = ground arith in
          rw (after, apart)
            (All-insert_new (key y) x ys gt (h.0), insert_new-IsAscending x ys (h.1))
    ]
  ]

insert_input-IsAscending :
    (hashes : Hashes) (input : Input) (inputs : Inputs)
    → IsAscending (input_hashes hashes inputs)
    → IsAscending (input_hashes hashes (insert_input hashes input inputs))
unfolding input_hashes insert_input
insert_input-IsAscending hashes input (commit_only inputs) h =
    insert_new-IsAscending (hashes.commit_hash) (record { commit = input.commit }) inputs h
insert_input-IsAscending hashes input (features_and_commit inputs) h =
    insert_new-IsAscending (hashes.input_hash) input inputs h

-- A body that passes the order check passes it with one more input, output or kernel.
pub with_elements-verify_sorted :
    (hashes : Hashes) (body : TransactionBody) (input : Input) (output : Output) (kernel : TxKernel)
    → verify_sorted hashes body ≡ ok tt
    → (verify_sorted hashes (with_input hashes input body) ≡ ok tt)
      × (verify_sorted hashes (with_output hashes output body) ≡ ok tt)
      × (verify_sorted hashes (with_kernel hashes kernel body) ≡ ok tt)
unfolding with_input with_output with_kernel IsOrdered
with_elements-verify_sorted hashes body input output kernel sorted =
    let (inputs, rest) = (verify_sorted_iff hashes body).0 sorted in
    (
      (verify_sorted_iff hashes (with_input hashes input body)).1
          (insert_input-IsAscending hashes input (body.inputs) inputs, rest),
      (verify_sorted_iff hashes (with_output hashes output body)).1 (
        inputs,
        (
          insert_new-IsAscending (λ (o : Output). hashes.output_hash (o.identifier)) output
              (body.outputs) (rest.0),
          rest.1,
        ),
      ),
      (verify_sorted_iff hashes (with_kernel hashes kernel body)).1 (
        inputs,
        (rest.0, insert_new-IsAscending (hashes.kernel_hash) kernel (body.kernels) (rest.1)),
      ),
    )
