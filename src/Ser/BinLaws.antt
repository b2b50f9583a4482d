-- ===== src/Ser/BinLaws.antt =====
-- core/src/ser.rs: BinReader keeps the promises of a reader.
use grin.Prelude.{
  ◌≤◌, ltb, false, ℕ, ◌^◌, ◌<◌, ◌≡◌, List, [], ◌∷◌, ◌++◌, ok, refl, length, leb, length-append,
  take-append, drop-append, true, arith,
}
use grin.Ser.Types.{ByteOrder, max_read_size}
use grin.Ser.Laws.{Reads, ReaderLaws}
use grin.Ser.Source.{read_exact}
use grin.Ser.BinReader.{
  BinReader, read_exact_bytes, read_fixed_bytes, advance, read_u8, read_u16, read_u64, reader,
}

pub read_exact-append :
    (len : ℕ) (bs rest source : List ℕ)
    → source ≡ bs ++ rest
    → length bs ≡ len
    → read_exact len source ≡ ok (bs, rest)
unfolding read_exact
read_exact-append len bs rest source e el =
    let fits : leb len (length (bs ++ rest)) ≡ true = ground (arith, length-append bs rest) in
    rw (e, fits, take-append len bs rest el, drop-append len bs rest el) refl

module _ (order : ByteOrder) where
  bin_exact :
      (s : BinReader) (len : ℕ) (bs rest : List ℕ)
      → s.source ≡ bs ++ rest
      → length bs ≡ len
      → Reads (reader order) (λ t. t.source) s bs rest (read_exact_bytes len s)
  unfolding reader read_exact_bytes advance
  bin_exact s len bs rest e el = (
    record { source = rest; version = s.version; deser_mode = s.deser_mode },
    rw (read_exact-append len bs rest (s.source) e el) refl,
    refl,
    refl,
  )

  pub bin_u8 :
      (s : BinReader) (b : ℕ) (rest : List ℕ)
      → s.source ≡ b ∷ rest
      → Reads (reader order) (λ t. t.source) s b rest (read_u8 s)
  unfolding read_u8
  bin_u8 s b rest e =
      let (s', es, er, ev) = bin_exact s 1 (b ∷ []) rest e refl in (s', rw es refl, er, ev)

  pub bin_u16 :
      (s : BinReader) (n : ℕ) (rest : List ℕ)
      → n < 2 ^ 16
      → s.source ≡ order.write_uint 2 n ++ rest
      → Reads (reader order) (λ t. t.source) s n rest (read_u16 order s)
  unfolding read_u16
  bin_u16 s n rest b e =
      let (s', es, er, ev) =
        bin_exact s 2 (order.write_uint 2 n) rest e (order.length-write_uint 2 n) in
      (s', rw (es, order.read_uint-write_uint 2 n b) refl, er, ev)

  pub bin_u64 :
      (s : BinReader) (n : ℕ) (rest : List ℕ)
      → n < 2 ^ 64
      → s.source ≡ order.write_uint 8 n ++ rest
      → Reads (reader order) (λ t. t.source) s n rest (read_u64 order s)
  unfolding read_u64
  bin_u64 s n rest b e =
      let (s', es, er, ev) =
        bin_exact s 8 (order.write_uint 8 n) rest e (order.length-write_uint 8 n) in
      (s', rw (es, order.read_uint-write_uint 8 n b) refl, er, ev)

  pub bin_fixed_bytes :
      (s : BinReader) (bytes rest : List ℕ)
      → length bytes ≤ max_read_size
      → s.source ≡ bytes ++ rest
      → Reads (reader order) (λ t. t.source) s bytes rest (read_fixed_bytes (length bytes) s)
  unfolding read_fixed_bytes
  bin_fixed_bytes s bytes rest b e =
      let small : ltb max_read_size (length bytes) ≡ false = ground arith in
      let (s', es, er, ev) = bin_exact s (length bytes) bytes rest e refl in
      (s', rw (small, es) refl, er, ev)

  unfoldable pub bin_laws : ReaderLaws order BinReader (reader order)
  unfolding reader
  bin_laws = record {
    remaining = λ s. s.source;
    reads_u8 = bin_u8;
    reads_u16 = bin_u16;
    reads_u64 = bin_u64;
    reads_fixed_bytes = bin_fixed_bytes;
  }
