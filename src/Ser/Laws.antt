-- ===== src/Ser/Laws.antt =====
-- core/src/ser.rs: what every reader promises, so that what is written can be read back through
-- any of them.
use grin.Prelude.{
  ℕ, ◌≤◌, length, zero, suc, ◌^◌, ◌<◌, ◌≡◌, List, ◌∷◌, ◌++◌, Result, ok, replicate, refl, ◌∙◌,
}
use grin.Ser.Types.{Error, ByteOrder, max_read_size}
use grin.Ser.Reader.{Reader, read_empty_bytes}

-- The result is the value `a`, with the bytes `rest` left and the version unchanged.
module _ {S A : Type 0} where
  abbrev pub Reads : Reader S → (S → List ℕ) → S → A → List ℕ → Result Error (A × S) → Type 0
  Reads r remaining s a rest result =
      (s' : S) × (result ≡ ok (a, s'))
      × (remaining s' ≡ rest)
      × (r.protocol_version s' ≡ r.protocol_version s)

pub record ReaderLaws (order : ByteOrder) (S : Type 0) (r : Reader S) : Type 0 where
  pub remaining : S → List ℕ
  pub reads_u8 :
      (s : S) (b : ℕ) (rest : List ℕ)
      → remaining s ≡ b ∷ rest
      → Reads r remaining s b rest (r.read_u8 s)
  pub reads_u16 :
      (s : S) (n : ℕ) (rest : List ℕ)
      → n < 2 ^ 16
      → remaining s ≡ order.write_uint 2 n ++ rest
      → Reads r remaining s n rest (r.read_u16 s)
  pub reads_u64 :
      (s : S) (n : ℕ) (rest : List ℕ)
      → n < 2 ^ 64
      → remaining s ≡ order.write_uint 8 n ++ rest
      → Reads r remaining s n rest (r.read_u64 s)
  pub reads_fixed_bytes :
      (s : S) (bytes rest : List ℕ)
      → length bytes ≤ max_read_size
      → remaining s ≡ bytes ++ rest
      → Reads r remaining s bytes rest (r.read_fixed_bytes (length bytes) s)

module _ {order : ByteOrder} {S : Type 0} {r : Reader S} (laws : ReaderLaws order S r) where
  pub Reads-empty :
      (len : ℕ) (s : S) (rest : List ℕ)
      → laws.remaining s ≡ replicate len 0 ++ rest
      → Reads r (laws.remaining) s tt rest (read_empty_bytes r len s)
  unfolding read_empty_bytes
  Reads-empty zero s rest e = (s, refl, e, refl)
  Reads-empty (suc len) s rest e =
      let (s1, e1, r1, v1) = laws.reads_u8 s 0 (replicate len 0 ++ rest) e in
      let (s2, e2, r2, v2) = Reads-empty len s1 rest r1 in (s2, rw e1 e2, r2, v2 ∙ v1)
