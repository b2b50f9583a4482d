-- ===== src/Pmmr/MerkleCodec.antt =====
-- core/src/core/merkle_proof.rs and core/src/core/hash.rs: the binary format of a Merkle proof.
use grin.Prelude.{ℕ, zero, suc, List, [], ◌∷◌, length}
use grin.Ser.Types.{ByteOrder}
use grin.Ser.Stream.{Stream, pure, ◌>>=◌}
use grin.Ser.BigEndian.{digits, number_from}
use grin.Ser.Writer.{Writer, write_u64, write_fixed_bytes, write_all}
use grin.Ser.Reader.{Reader}
use grin.Pmmr.MerkleProof.{MerkleProof}

-- A hash is 32 bytes, here a number of 256 bits.
unfoldable pub write_hash : ℕ → Stream Writer (Unit {0})
write_hash hash = write_fixed_bytes (digits 32 hash)

unfoldable pub write_proof : ByteOrder → MerkleProof → Stream Writer (Unit {0})
write_proof order proof = do
  _ ← write_u64 order (proof.mmr_size)
  _ ← write_u64 order (length (proof.path))
  write_all write_hash (proof.path)

module _ {S : Type 0} (r : Reader S) where
  unfoldable pub read_hash : Stream S ℕ
  read_hash = do a ← r.read_fixed_bytes 32; pure (number_from 0 a)

  -- The `for` loop, which ends at the first hash that cannot be read.
  unfoldable pub read_path : ℕ → Stream S (List ℕ)
  read_path zero = pure []
  read_path (suc n) = do hash ← read_hash; path ← read_path n; pure (hash ∷ path)

  unfoldable pub read_proof : Stream S MerkleProof
  read_proof = do
    mmr_size ← r.read_u64
    path_len ← r.read_u64
    path ← read_path path_len
    pure (record { mmr_size = mmr_size; path = path })
