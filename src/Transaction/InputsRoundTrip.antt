-- ===== src/Transaction/InputsRoundTrip.antt =====
-- core/src/core/transaction.rs: what the format of a body can hold, and its inputs written and read
-- back.
use grin.Prelude.{
  ℕ, suc, ◌^◌, ◌≤◌, ◌<◌, ◌≡◌, ◌⊎◌, refl, ◌∙◌, arith, List, [], ◌∷◌, length, All, Bool, true, false,
  leb, ◌==◌,
}
use grin.Ser.Types.{ByteOrder, is_hash_mode}
use grin.Ser.Writer.{write_all}
use grin.Ser.Reader.{Reader, read_multi}
use grin.Ser.Laws.{ReaderLaws}
use grin.Ser.Coding.{sink_of, Coded, Coded-one, Coded-list}
use grin.Transaction.Kernel.{is_nrd}
use grin.Transaction.KernelBytes.{IsValid}
use grin.Transaction.Types.{
  Output, Input, CommitWrapper, TxKernel, Inputs, commit_only, features_and_commit, Hashes,
  inputs_len,
}
use grin.Transaction.BodyCodec.{
  write_input, write_commit_wrapper, write_inputs, write_inputs_full, read_input,
  read_commit_wrapper, read_inputs, as_commits, as_inputs,
}
use grin.Transaction.Elements.{Coded-commit_wrapper, Coded-input}

-- Values that the format can hold, with the kind of inputs that belongs to the version.
unfoldable pub IsInputs : ℕ → Inputs → Type 0
IsInputs v (commit_only inputs) = (2 < v) × All (λ (c : CommitWrapper). c.commit < 256 ^ 33) inputs
IsInputs v (features_and_commit inputs) = (v ≤ 2) × All (λ (i : Input). i.commit < 256 ^ 33) inputs

unfoldable pub IsOutput : Output → Type 0
IsOutput o = (o.identifier.commit < 256 ^ 33) × (length (o.proof) ≡ 675)

unfoldable pub IsKernel : Bool → TxKernel → Type 0
IsKernel nrd_enabled k =
    IsValid (k.features)
    × ((is_nrd (k.features) ≡ false) ⊎ (nrd_enabled ≡ true))
    × (k.excess < 256 ^ 33)
    × (k.excess_sig < 256 ^ 64)

module _ {A : Type 0} {P Q : A → Type 0} where
  pub All-map : (xs : List A) → ((x : A) → P x → Q x) → All P xs → All Q xs
  All-map [] f h = tt
  All-map (x ∷ xs) f h = (f x (h.0), All-map xs f (h.1))

-- In full mode the inputs are written as the list that they hold.
commits_written :
    (hashes : Hashes) (v : ℕ) (xs : List CommitWrapper) (sink : List ℕ)
    → 2 < v
    → write_inputs hashes (commit_only xs) (sink_of v sink)
      ≡ write_all write_commit_wrapper xs (sink_of v sink)
unfolding write_inputs write_inputs_full write_all inputs_len is_hash_mode
commits_written hashes v [] sink h = refl
commits_written hashes v (x ∷ xs) sink h =
    let some_left : (suc (length xs) == 0) ≡ false = ground arith in
    let new : leb v 2 ≡ false = ground arith in rw (some_left, new) refl

inputs_written :
    (hashes : Hashes) (v : ℕ) (xs : List Input) (sink : List ℕ)
    → v ≤ 2
    → write_inputs hashes (features_and_commit xs) (sink_of v sink)
      ≡ write_all write_input xs (sink_of v sink)
unfolding write_inputs write_inputs_full write_all inputs_len is_hash_mode
inputs_written hashes v [] sink h = refl
inputs_written hashes v (x ∷ xs) sink h =
    let some_left : (suc (length xs) == 0) ≡ false = ground arith in
    let old : leb v 2 ≡ true = ground arith in rw (some_left, old) refl

module _ (order : ByteOrder) (S : Type 0) (r : Reader S) (laws : ReaderLaws order S r) (v : ℕ)
    (hashes : Hashes) where
  pub Coded-inputs :
      (inputs : Inputs)
      → inputs_len inputs ≤ 1000000
      → IsInputs v inputs
      → Coded order S r laws v
          (write_inputs hashes inputs)
          (read_inputs r (inputs_len inputs))
          inputs
  unfolding read_inputs as_commits as_inputs inputs_len IsInputs
  Coded-inputs (commit_only xs) b h =
      let items = All-map xs (Coded-commit_wrapper order S r laws v) (h.1) in
      let (bytes, w, c) =
        Coded-one order S r laws v (write_all write_commit_wrapper xs)
          (read_multi (read_commit_wrapper r) (length xs)) commit_only xs
          (Coded-list order S r laws v write_commit_wrapper (read_commit_wrapper r) xs b items) in
      let new : leb v 2 ≡ false = let lt = h.0 in ground arith in
      (
        bytes,
        λ sink. commits_written hashes v xs sink (h.0) ∙ w sink,
        λ s rest ev e. let (s', es, er, ev') = c s rest ev e in (s', rw (ev, new) es, er, ev'),
      )
  Coded-inputs (features_and_commit xs) b h =
      let items = All-map xs (Coded-input order S r laws v) (h.1) in
      let (bytes, w, c) =
        Coded-one order S r laws v (write_all write_input xs)
          (read_multi (read_input r) (length xs)) features_and_commit xs
          (Coded-list order S r laws v write_input (read_input r) xs b items) in
      let old : leb v 2 ≡ true = let le = h.0 in ground arith in
      (
        bytes,
        λ sink. inputs_written hashes v xs sink (h.0) ∙ w sink,
        λ s rest ev e. let (s', es, er, ev') = c s rest ev e in (s', rw (ev, old) es, er, ev'),
      )
