-- ===== src/Transaction/Elements.antt =====
-- core/src/core/transaction.rs: inputs, outputs and kernels that are written are read back.
use grin.Prelude.{ℕ, ◌^◌, ◌<◌, ◌≡◌, ◌⊎◌, refl, List, [], ◌∷◌, length, Bool, true, false}
use grin.Ser.Types.{ByteOrder}
use grin.Ser.Writer.{write_u8}
use grin.Ser.Reader.{Reader}
use grin.Ser.Laws.{ReaderLaws}
use grin.Ser.Fields.{
  write_commitment, write_signature, write_range_proof, read_commitment, read_signature,
  read_range_proof,
}
use grin.Ser.FieldCoding.{Coded-commitment, Coded-signature, Coded-proof}
use grin.Ser.Coding.{sink_of, Coded-one, Coded-two, Coded-three, Appends-fixed, Coded}
use grin.Transaction.Kernel.{KernelFeatures, is_nrd}
use grin.Transaction.KernelCodec as KernelCodec
use grin.Transaction.KernelBytes.{IsValid}
use grin.Transaction.RoundTrip.{encoded, writes, reads}
use grin.Transaction.Types.{
  OutputFeatures, OutputIdentifier, Output, Input, CommitWrapper, TxKernel,
}
use grin.Transaction.BodyCodec.{
  write_output_features, write_input, write_commit_wrapper, write_identifier, write_output,
  write_kernel, features_from_u8, read_output_features, read_input, read_commit_wrapper,
  read_identifier, read_output, read_kernel,
}

module _ (order : ByteOrder) (S : Type 0) (r : Reader S) (laws : ReaderLaws order S r) (v : ℕ) where
  pub Coded-output_features :
      (f : OutputFeatures)
      → Coded order S r laws v (write_output_features f) (read_output_features r) f
  unfolding write_output_features read_output_features features_from_u8 write_u8
  Coded-output_features OutputFeatures.plain = (
    0 ∷ [],
    Appends-fixed v (0 ∷ []),
    λ s rest ev e. let (s', es, er, ev') = laws.reads_u8 s 0 rest e in (s', rw es refl, er, ev'),
  )
  Coded-output_features OutputFeatures.coinbase = (
    1 ∷ [],
    Appends-fixed v (1 ∷ []),
    λ s rest ev e. let (s', es, er, ev') = laws.reads_u8 s 1 rest e in (s', rw es refl, er, ev'),
  )

  pub Coded-commit_wrapper :
      (c : CommitWrapper)
      → c.commit < 256 ^ 33
      → Coded order S r laws v (write_commit_wrapper c) (read_commit_wrapper r) c
  unfolding write_commit_wrapper read_commit_wrapper
  Coded-commit_wrapper c b =
      Coded-one order S r laws v (write_commitment (c.commit)) (read_commitment r)
        (λ (x : ℕ). record { commit = x }) (c.commit)
        (Coded-commitment order S r laws v (c.commit) b)

  pub Coded-input :
      (i : Input) → i.commit < 256 ^ 33 → Coded order S r laws v (write_input i) (read_input r) i
  unfolding write_input read_input
  Coded-input i b =
      Coded-two order S r laws v (write_output_features (i.features)) (write_commitment (i.commit))
        (read_output_features r) (read_commitment r)
        (λ (f : OutputFeatures) (x : ℕ). record { features = f; commit = x }) (i.features)
        (i.commit) (Coded-output_features (i.features))
        (Coded-commitment order S r laws v (i.commit) b)

  pub Coded-identifier :
      (i : OutputIdentifier)
      → i.commit < 256 ^ 33
      → Coded order S r laws v (write_identifier i) (read_identifier r) i
  unfolding write_identifier read_identifier
  Coded-identifier i b =
      Coded-two order S r laws v (write_output_features (i.features)) (write_commitment (i.commit))
        (read_output_features r) (read_commitment r)
        (λ (f : OutputFeatures) (x : ℕ). record { features = f; commit = x }) (i.features)
        (i.commit) (Coded-output_features (i.features))
        (Coded-commitment order S r laws v (i.commit) b)

  pub Coded-output :
      (o : Output)
      → o.identifier.commit < 256 ^ 33
      → length (o.proof) ≡ 675
      → Coded order S r laws v (write_output order o) (read_output r) o
  unfolding write_output read_output
  Coded-output o b len =
      Coded-two order S r laws v (write_identifier (o.identifier))
        (write_range_proof order (o.proof)) (read_identifier r) (read_range_proof r)
        (λ (i : OutputIdentifier) (p : List ℕ). record { identifier = i; proof = p }) (o.identifier)
        (o.proof) (Coded-identifier (o.identifier) b) (Coded-proof order S r laws v (o.proof) len)

  pub Coded-features :
      (nrd_enabled : Bool) (f : KernelFeatures)
      → IsValid f
      → (is_nrd f ≡ false) ⊎ (nrd_enabled ≡ true)
      → Coded order S r laws v (KernelCodec.write order f) (KernelCodec.read r nrd_enabled) f
  unfolding encoded
  Coded-features nrd_enabled f valid flag = (
    encoded order (sink_of v []) f,
    λ sink. writes order f (sink_of v sink) refl,
    λ s rest ev e. reads laws nrd_enabled f (sink_of v []) s rest valid flag ev e,
  )

  pub Coded-kernel :
      (nrd_enabled : Bool) (k : TxKernel)
      → IsValid (k.features)
      → (is_nrd (k.features) ≡ false) ⊎ (nrd_enabled ≡ true)
      → k.excess < 256 ^ 33
      → k.excess_sig < 256 ^ 64
      → Coded order S r laws v (write_kernel order k) (read_kernel r nrd_enabled) k
  unfolding write_kernel read_kernel
  Coded-kernel nrd_enabled k valid flag eb sb =
      Coded-three order S r laws v (KernelCodec.write order (k.features))
        (write_commitment (k.excess)) (write_signature (k.excess_sig))
        (KernelCodec.read r nrd_enabled) (read_commitment r) (read_signature r)
        (λ (f : KernelFeatures) (x y : ℕ). record { features = f; excess = x; excess_sig = y })
        (k.features) (k.excess) (k.excess_sig) (Coded-features nrd_enabled (k.features) valid flag)
        (Coded-commitment order S r laws v (k.excess) eb)
        (Coded-signature order S r laws v (k.excess_sig) sb)
