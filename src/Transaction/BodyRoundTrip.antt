-- ===== src/Transaction/BodyRoundTrip.antt =====
-- core/src/core/transaction.rs: a body that is written is read back.
use grin.Prelude.{ℕ, ◌+◌, ◌*◌, ◌≤◌, ◌≡◌, arith, List, [], length, All, Bool, false, ok, ltb}
use grin.Ser.Types.{ByteOrder}
use grin.Ser.Stream.{Stream, ◌>>=◌}
use grin.Ser.Writer.{Writer, write_u64, write_all}
use grin.Ser.Reader.{Reader, read_multi}
use grin.Ser.Laws.{ReaderLaws}
use grin.Ser.Coding.{ReadsAs, Coded, Coded-then, Coded-final, Coded-list, reads_pure}
use grin.Ser.FieldCoding.{Coded-u64}
use grin.Global.Chain.{ChainTypes, max_block_weight}
use grin.Transaction.Types.{Output, TxKernel, Inputs, TransactionBody, Hashes, inputs_len}
use grin.Transaction.Body.{weight_by_iok, verify_sorted}
use grin.Transaction.Validation.{total}
use grin.Transaction.BodyCodec.{
  write_output, write_kernel, write_inputs, write_body, read_output, read_kernel, read_inputs,
  read_parts, sorted_body, guard_weight, read_body,
}
use grin.Transaction.Elements.{Coded-output, Coded-kernel}
use grin.Transaction.InputsRoundTrip.{IsInputs, IsOutput, IsKernel, All-map, Coded-inputs}

-- A body within the weight of a block, in the order that verify_sorted wants.
pub record IsReadable (chain : ChainTypes) (nrd_enabled : Bool) (hashes : Hashes) (v : ℕ)
    (body : TransactionBody) : Type 0 where
  pub inputs_fit : IsInputs v (body.inputs)
  pub outputs_fit : All IsOutput (body.outputs)
  pub kernels_fit : All (IsKernel nrd_enabled) (body.kernels)
  pub light : total body ≤ max_block_weight chain
  pub sorted : verify_sorted hashes body ≡ ok tt

block_limit : (chain : ChainTypes) → max_block_weight chain ≤ 40000
unfolding max_block_weight
block_limit ChainTypes.automated_testing = omega arith
block_limit ChainTypes.user_testing = omega arith
block_limit ChainTypes.testnet = omega arith
block_limit ChainTypes.mainnet = omega arith

within_weight :
    (chain : ChainTypes) (i o k : ℕ)
    → i + 21 * o + 3 * k ≤ max_block_weight chain
    → ltb (max_block_weight chain) (weight_by_iok i o k) ≡ false
unfolding weight_by_iok
within_weight chain i o k h =
    let limit = block_limit chain in
    let exact : weight_by_iok i o k ≡ i + 21 * o + 3 * k = omega arith in rw exact (ground arith)

module _ (order : ByteOrder) (S : Type 0) (r : Reader S) (laws : ReaderLaws order S r) (v : ℕ)
    (hashes : Hashes) (chain : ChainTypes) (nrd_enabled : Bool) (body : TransactionBody)
    (ok_body : IsReadable chain nrd_enabled hashes v body) where
  few :
      (inputs_len (body.inputs) ≤ 1000000)
      × (length (body.outputs) ≤ 1000000)
      × (length (body.kernels) ≤ 1000000)
  few =
      let limit = block_limit chain in
      let light = ok_body.light in (omega arith, omega arith, omega arith)

  checked : ReadsAs order S r laws v (sorted_body r (verify_sorted hashes body) body) [] body
  unfolding sorted_body
  checked = rw (ok_body.sorted) (reads_pure order S r laws v body)

  abbrev finish : Inputs → List Output → List TxKernel → Stream S TransactionBody
  finish inputs outputs kernels =
      let built : TransactionBody = record {
        inputs = inputs;
        outputs = outputs;
        kernels = kernels;
      } in
      sorted_body r (verify_sorted hashes built) built

  Coded-kernels :
      Coded order S r laws v
        (write_all (write_kernel order) (body.kernels))
        (read_multi (read_kernel r nrd_enabled) (length (body.kernels))
          >>= finish (body.inputs) (body.outputs))
        body
  unfolding IsKernel
  Coded-kernels =
      let items =
        All-map (body.kernels)
          (λ k h. Coded-kernel order S r laws v nrd_enabled k (h.0) (h.1) (h.2) (h.3))
          (ok_body.kernels_fit) in
      Coded-final order S r laws v (write_all (write_kernel order) (body.kernels))
        (read_multi (read_kernel r nrd_enabled) (length (body.kernels)))
        (finish (body.inputs) (body.outputs)) (body.kernels) body
        (Coded-list order S r laws v (write_kernel order) (read_kernel r nrd_enabled) (body.kernels)
          (few.2) items)
        checked

  Coded-outputs :
      Coded order S r laws v
        (write_all (write_output order) (body.outputs) >>= λ _.
          write_all (write_kernel order) (body.kernels))
        (read_multi (read_output r) (length (body.outputs)) >>= λ outputs.
          (read_multi (read_kernel r nrd_enabled) (length (body.kernels))
            >>= finish (body.inputs) outputs))
        body
  unfolding IsOutput
  Coded-outputs =
      let items =
        All-map (body.outputs) (λ o h. Coded-output order S r laws v o (h.0) (h.1))
          (ok_body.outputs_fit) in
      Coded-then order S r laws v (write_all (write_output order) (body.outputs))
        (write_all (write_kernel order) (body.kernels))
        (read_multi (read_output r) (length (body.outputs)))
        (λ outputs.
          (read_multi (read_kernel r nrd_enabled) (length (body.kernels))
            >>= finish (body.inputs) outputs))
        (body.outputs) body
        (Coded-list order S r laws v (write_output order) (read_output r) (body.outputs) (few.1)
          items)
        Coded-kernels

  abbrev parts_written : Stream Writer (Unit {0})
  parts_written = write_inputs hashes (body.inputs) >>= λ _.
      (write_all (write_output order) (body.outputs) >>= λ _.
      write_all (write_kernel order) (body.kernels))

  Coded-parts :
      Coded order S r laws v parts_written
        (read_parts r nrd_enabled hashes
          (inputs_len (body.inputs))
          (length (body.outputs))
          (length (body.kernels)))
        body
  unfolding read_parts
  Coded-parts =
      Coded-then order S r laws v (write_inputs hashes (body.inputs))
        (write_all (write_output order) (body.outputs) >>= λ _.
          write_all (write_kernel order) (body.kernels))
        (read_inputs r (inputs_len (body.inputs)))
        (λ inputs.
          (read_multi (read_output r) (length (body.outputs)) >>= λ outputs.
          (read_multi (read_kernel r nrd_enabled) (length (body.kernels))
            >>= finish inputs outputs)))
        (body.inputs) body
        (Coded-inputs order S r laws v hashes (body.inputs) (few.0) (ok_body.inputs_fit))
        Coded-outputs

  abbrev sized : ℕ → ℕ → ℕ → Stream S TransactionBody
  sized i o k = guard_weight r chain (weight_by_iok i o k) (read_parts r nrd_enabled hashes i o k)

  Coded-sized :
      Coded order S r laws v parts_written
        (sized (inputs_len (body.inputs)) (length (body.outputs)) (length (body.kernels)))
        body
  unfolding guard_weight
  Coded-sized =
      let light =
        within_weight chain (inputs_len (body.inputs)) (length (body.outputs))
          (length (body.kernels)) (ok_body.light) in
      rw light Coded-parts

  pub Coded-body :
      Coded order S r laws v
        (write_body order hashes body)
        (read_body r chain nrd_enabled hashes)
        body
  unfolding write_body read_body
  Coded-body =
      let i = inputs_len (body.inputs) in
      let o = length (body.outputs) in
      let k = length (body.kernels) in
      let third =
        Coded-then order S r laws v (write_u64 order k) parts_written (r.read_u64)
          (λ n. sized i o n) k body (Coded-u64 order S r laws v k (omega (arith, few)))
          Coded-sized in
      let second =
        Coded-then order S r laws v (write_u64 order o) (write_u64 order k >>= λ _. parts_written)
          (r.read_u64) (λ m. (r.read_u64 >>= λ n. sized i m n)) o body
          (Coded-u64 order S r laws v o (omega (arith, few))) third in
      Coded-then order S r laws v (write_u64 order i)
        (write_u64 order o >>= λ _. (write_u64 order k >>= λ _. parts_written)) (r.read_u64)
        (λ l. (r.read_u64 >>= λ m. (r.read_u64 >>= λ n. sized l m n))) i body
        (Coded-u64 order S r laws v i (omega (arith, few))) second
