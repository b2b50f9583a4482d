-- ===== src/Ser/FieldCoding.antt =====
-- core/src/ser.rs: commitments, signatures and range proofs that are written are read back.
use grin.Prelude.{ℕ, ◌-◌, ◌^◌, ◌≤◌, ◌<◌, ◌≡◌, refl, ◌∙◌, arith, min, List, ◌++◌, length}
use mathlib.Core.List.{append_assoc, append-nil}
use grin.Ser.Types.{ByteOrder, max_read_size}
use grin.Ser.Writer.{write_u64, write_bytes}
use grin.Ser.Reader.{Reader}
use grin.Ser.Laws.{ReaderLaws}
use grin.Ser.BigEndian.{digits, length-digits, number-digits}
use grin.Ser.Fields.{
  write_commitment, write_signature, write_range_proof, read_commitment, read_signature,
  read_range_proof,
}
use grin.Ser.Coding.{Appends-fixed, ReadsAs, Coded}

module _ (order : ByteOrder) (S : Type 0) (r : Reader S) (laws : ReaderLaws order S r) (v : ℕ) where
  pub reads_fixed :
      (n : ℕ) (bytes : List ℕ)
      → length bytes ≡ n
      → n ≤ max_read_size
      → ReadsAs order S r laws v (r.read_fixed_bytes n) bytes bytes
  reads_fixed n bytes len b s rest ev e =
      let (s', es, er, ev') = laws.reads_fixed_bytes s bytes rest (omega arith) e in
      (s', rw len at es, er, ev')

  pub Coded-commitment :
      (c : ℕ) → c < 256 ^ 33 → Coded order S r laws v (write_commitment c) (read_commitment r) c
  unfolding write_commitment read_commitment
  Coded-commitment c b = (
    digits 33 c,
    Appends-fixed v (digits 33 c),
    λ s rest ev e.
        let (s', es, er, ev') =
          reads_fixed 33 (digits 33 c) (length-digits 33 c) (omega arith) s rest ev e in
        (s', rw (es, number-digits 33 c b) refl, er, ev'),
  )

  pub Coded-signature :
      (c : ℕ) → c < 256 ^ 64 → Coded order S r laws v (write_signature c) (read_signature r) c
  unfolding write_signature read_signature
  Coded-signature c b = (
    digits 64 c,
    Appends-fixed v (digits 64 c),
    λ s rest ev e.
        let (s', es, er, ev') =
          reads_fixed 64 (digits 64 c) (length-digits 64 c) (omega arith) s rest ev e in
        (s', rw (es, number-digits 64 c b) refl, er, ev'),
  )

  pub Coded-u64 : (n : ℕ) → n < 2 ^ 64 → Coded order S r laws v (write_u64 order n) (r.read_u64) n
  unfolding write_u64
  Coded-u64 n b = (
    order.write_uint 8 n,
    Appends-fixed v (order.write_uint 8 n),
    λ s rest ev e. laws.reads_u64 s n rest b e,
  )

  -- Only a proof of the full length comes back as it was.
  pub Coded-proof :
      (p : List ℕ)
      → length p ≡ 675
      → Coded order S r laws v (write_range_proof order p) (read_range_proof r) p
  unfolding write_range_proof write_bytes read_range_proof write_u64
  Coded-proof p len =
      let prefix = order.write_uint 8 (length p) in
      (
        prefix ++ p,
        λ sink.
            rw
              (
                Appends-fixed v prefix sink,
                Appends-fixed v p (sink ++ prefix),
                append_assoc sink prefix p,
              )
              refl,
        λ s rest ev e.
            let (s1, e1, r1, v1) =
              laws.reads_u64 s (length p) (p ++ rest) (omega arith)
                (e ∙ append_assoc prefix p rest) in
            let (s2, e2, r2, v2) = reads_fixed 675 p len (omega arith) s1 rest (v1 ∙ ev) r1 in
            let size : min (length p) 675 ≡ 675 = omega arith in
            let none_left : 675 - length p ≡ 0 = omega arith in
            (s2, rw (e1, size, e2, none_left, append-nil p) refl, r2, v2 ∙ v1),
      )
