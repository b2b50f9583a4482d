-- ===== src/Ser/StreamingLaws.antt =====
-- core/src/ser.rs: StreamingReader keeps the promises of a reader.
use grin.Prelude.{ℕ, ◌≤◌, ◌^◌, ◌<◌, ◌≡◌, List, [], ◌∷◌, ◌++◌, refl, length, add64}
use grin.Ser.Types.{ByteOrder, max_read_size}
use grin.Ser.Laws.{Reads, ReaderLaws}
use grin.Ser.BinLaws.{read_exact-append}
use grin.Ser.StreamingReader.{
  StreamingReader, read_fixed_bytes, advance, read_u8, read_u16, read_u64, reader,
}

module _ (order : ByteOrder) where
  streaming_exact :
      (s : StreamingReader) (len : ℕ) (bs rest : List ℕ)
      → s.stream ≡ bs ++ rest
      → length bs ≡ len
      → Reads (reader order) (λ t. t.stream) s bs rest (read_fixed_bytes len s)
  unfolding reader read_fixed_bytes advance
  streaming_exact s len bs rest e el = (
    record {
      total_bytes_read = add64 (s.total_bytes_read) len;
      version = s.version;
      stream = rest;
    },
    rw (read_exact-append len bs rest (s.stream) e el) refl,
    refl,
    refl,
  )

  pub streaming_u8 :
      (s : StreamingReader) (b : ℕ) (rest : List ℕ)
      → s.stream ≡ b ∷ rest
      → Reads (reader order) (λ t. t.stream) s b rest (read_u8 s)
  unfolding read_u8
  streaming_u8 s b rest e =
      let (s', es, er, ev) = streaming_exact s 1 (b ∷ []) rest e refl in (s', rw es refl, er, ev)

  pub streaming_u16 :
      (s : StreamingReader) (n : ℕ) (rest : List ℕ)
      → n < 2 ^ 16
      → s.stream ≡ order.write_uint 2 n ++ rest
      → Reads (reader order) (λ t. t.stream) s n rest (read_u16 order s)
  unfolding read_u16
  streaming_u16 s n rest b e =
      let (s', es, er, ev) =
        streaming_exact s 2 (order.write_uint 2 n) rest e (order.length-write_uint 2 n) in
      (s', rw (es, order.read_uint-write_uint 2 n b) refl, er, ev)

  pub streaming_u64 :
      (s : StreamingReader) (n : ℕ) (rest : List ℕ)
      → n < 2 ^ 64
      → s.stream ≡ order.write_uint 8 n ++ rest
      → Reads (reader order) (λ t. t.stream) s n rest (read_u64 order s)
  unfolding read_u64
  streaming_u64 s n rest b e =
      let (s', es, er, ev) =
        streaming_exact s 8 (order.write_uint 8 n) rest e (order.length-write_uint 8 n) in
      (s', rw (es, order.read_uint-write_uint 8 n b) refl, er, ev)

  pub streaming_fixed_bytes :
      (s : StreamingReader) (bytes rest : List ℕ)
      → length bytes ≤ max_read_size
      → s.stream ≡ bytes ++ rest
      → Reads (reader order) (λ t. t.stream) s bytes rest (read_fixed_bytes (length bytes) s)
  streaming_fixed_bytes s bytes rest b e = streaming_exact s (length bytes) bytes rest e refl

  unfoldable pub streaming_laws : ReaderLaws order StreamingReader (reader order)
  unfolding reader
  streaming_laws = record {
    remaining = λ s. s.stream;
    reads_u8 = streaming_u8;
    reads_u16 = streaming_u16;
    reads_u64 = streaming_u64;
    reads_fixed_bytes = streaming_fixed_bytes;
  }
