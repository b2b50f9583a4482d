-- ===== src/Pmmr/ProofRoundTrip.antt =====
-- core/src/core/merkle_proof.rs: a Merkle proof that is written is read back.
use grin.Prelude.{ℕ, ◌^◌, ◌<◌, ◌≡◌, refl, arith, List, [], ◌∷◌, ◌++◌, length, All, ok}
use mathlib.Core.List.{append-nil}
use grin.Ser.Types.{ByteOrder}
use grin.Ser.Source.{full}
use grin.Ser.BinReader.{BinReader, reader}
use grin.Ser.BinLaws.{bin_laws}
use grin.Ser.Stream.{pure, ◌>>=◌}
use grin.Ser.Writer.{write_u64, write_all}
use grin.Ser.Reader.{Reader}
use grin.Ser.Laws.{ReaderLaws}
use grin.Ser.BigEndian.{digits, length-digits, number-digits}
use grin.Ser.Coding.{sink_of, Appends-fixed, reads_pure, Coded, Coded-one, Coded-then}
use grin.Ser.FieldCoding.{reads_fixed, Coded-u64}
use grin.Pmmr.MerkleProof.{MerkleProof}
use grin.Pmmr.MerkleCodec.{write_hash, write_proof, read_hash, read_path, read_proof}

unfoldable pub IsStorable : MerkleProof → Type 0
IsStorable proof =
    (proof.mmr_size < 2 ^ 64)
    × (length (proof.path) < 2 ^ 64)
    × All (λ h. h < 256 ^ 32) (proof.path)

module _ (order : ByteOrder) (S : Type 0) (r : Reader S) (laws : ReaderLaws order S r) (v : ℕ) where
  Coded-hash : (h : ℕ) → h < 256 ^ 32 → Coded order S r laws v (write_hash h) (read_hash r) h
  unfolding write_hash read_hash
  Coded-hash h b = (
    digits 32 h,
    Appends-fixed v (digits 32 h),
    λ s rest ev e.
        let (s', es, er, ev') =
          reads_fixed order S r laws v 32 (digits 32 h) (length-digits 32 h) (omega arith) s rest ev
            e in
        (s', rw (es, number-digits 32 h b) refl, er, ev'),
  )

  Coded-path :
      (path : List ℕ)
      → All (λ h. h < 256 ^ 32) path
      → Coded order S r laws v (write_all write_hash path) (read_path r (length path)) path
  unfolding write_all read_path
  Coded-path [] b = ([], λ sink. rw (append-nil sink) refl, reads_pure order S r laws v [])
  Coded-path (h ∷ path) b =
      Coded-then order S r laws v (write_hash h) (write_all write_hash path) (read_hash r)
        (λ x. (read_path r (length path) >>= λ xs. pure (x ∷ xs))) h (h ∷ path) (Coded-hash h (b.0))
        (Coded-one order S r laws v (write_all write_hash path) (read_path r (length path))
          (λ xs. h ∷ xs) path (Coded-path path (b.1)))

  pub Coded-merkle_proof :
      (proof : MerkleProof)
      → IsStorable proof
      → Coded order S r laws v (write_proof order proof) (read_proof r) proof
  unfolding write_proof read_proof IsStorable
  Coded-merkle_proof proof (size, len, hashes) =
      Coded-then order S r laws v (write_u64 order (proof.mmr_size)) _ (r.read_u64) _
        (proof.mmr_size) proof (Coded-u64 order S r laws v (proof.mmr_size) size)
        (Coded-then order S r laws v (write_u64 order (length (proof.path))) _ (r.read_u64) _
          (length (proof.path)) proof (Coded-u64 order S r laws v (length (proof.path)) len)
          (Coded-one order S r laws v (write_all write_hash (proof.path))
            (read_path r (length (proof.path)))
            (λ path. record { mmr_size = proof.mmr_size; path = path }) (proof.path)
            (Coded-path (proof.path) hashes)))

-- A Merkle proof whose size and length of path are below 2 ^ 64 and whose hashes have 32 bytes is
-- written without an error, and BinReader reads the same proof from these bytes and leaves what
-- follows them.
pub read_proof-write_proof :
    (order : ByteOrder) (v : ℕ) (proof : MerkleProof) (rest : List ℕ)
    → IsStorable proof
    → (bytes : List ℕ) × (write_proof order proof (sink_of v []) ≡ ok (tt, sink_of v bytes))
      × ((s' : BinReader) × (read_proof
              (reader order)
              (record { source = bytes ++ rest; version = v; deser_mode = full })
            ≡ ok (proof, s'))
          × (s'.source ≡ rest))
unfolding reader bin_laws
read_proof-write_proof order v proof rest h =
    let (bytes, written, read) =
      Coded-merkle_proof order BinReader (reader order) (bin_laws order) v proof h in
    let (s', es, er, ev) =
      read (record { source = bytes ++ rest; version = v; deser_mode = full }) rest refl refl in
    (bytes, written [], (s', es, er))
