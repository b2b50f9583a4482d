-- ===== src/Ser/Fields.antt =====
-- core/src/ser.rs: commitments, signatures and range proofs. Their sizes are those of the secp256k1
-- library.
use grin.Prelude.{ℕ, ◌-◌, min, List, ◌++◌, length, replicate}
use grin.Ser.Types.{ByteOrder}
use grin.Ser.Stream.{Stream, pure, ◌>>=◌}
use grin.Ser.BigEndian.{digits, number_from}
use grin.Ser.Writer.{Writer, write_fixed_bytes, write_bytes}
use grin.Ser.Reader.{Reader}

abbrev pub pedersen_commitment_size : ℕ
pedersen_commitment_size = 33

abbrev pub agg_signature_size : ℕ
agg_signature_size = 64

abbrev pub max_proof_size : ℕ
max_proof_size = 675

unfoldable pub write_commitment : ℕ → Stream Writer (Unit {0})
write_commitment commit = write_fixed_bytes (digits pedersen_commitment_size commit)

unfoldable pub write_signature : ℕ → Stream Writer (Unit {0})
write_signature sig = write_fixed_bytes (digits agg_signature_size sig)

unfoldable pub write_range_proof : ByteOrder → List ℕ → Stream Writer (Unit {0})
write_range_proof order proof = write_bytes order proof

module _ {S : Type 0} (r : Reader S) where
  unfoldable pub read_commitment : Stream S ℕ
  read_commitment = do a ← r.read_fixed_bytes pedersen_commitment_size; pure (number_from 0 a)

  unfoldable pub read_signature : Stream S ℕ
  read_signature = do a ← r.read_fixed_bytes agg_signature_size; pure (number_from 0 a)

  -- A proof that is read has the full length, filled up with zeros.
  unfoldable pub read_range_proof : Stream S (List ℕ)
  read_range_proof = do
    len ← r.read_u64
    p ← r.read_fixed_bytes (min len max_proof_size)
    pure (p ++ replicate (max_proof_size - length p) 0)
