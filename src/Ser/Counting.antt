-- ===== src/Ser/Counting.antt =====
-- core/src/ser.rs: StreamingReader.total_bytes_read.
use grin.Prelude.{ℕ, ◌+◌, ◌%◌, ◌^◌, ◌<◌, ◌≡◌, List, ◌++◌, ok, refl, ap, length, arith}
use grin.Ser.Types.{ByteOrder}
use grin.Ser.BinLaws.{read_exact-append}
use grin.Ser.StreamingReader.{
  StreamingReader, read_fixed_bytes, advance, read_u64, count_prefix, read_bytes_len_prefix,
}

-- A length prefix and that many bytes behind it are read, 8 bytes for the prefix; the count grows
-- by 16 and the length, since the prefix is counted by read_u64 and once more.
pub read_bytes_len_prefix_counts :
    (order : ByteOrder) (total version : ℕ) (bytes rest : List ℕ)
    → length bytes < 2 ^ 64
    → read_bytes_len_prefix order (record {
      total_bytes_read = total;
      version = version;
      stream = order.write_uint 8 (length bytes) ++ (bytes ++ rest);
    })
      ≡ ok (
        bytes,
        record {
          total_bytes_read = (total + 16 + length bytes) % 2 ^ 64;
          version = version;
          stream = rest;
        },
      )
unfolding read_bytes_len_prefix read_u64 count_prefix read_fixed_bytes advance
read_bytes_len_prefix_counts order total version bytes rest b =
    let left : ℕ → StreamingReader =
      λ t. record { total_bytes_read = t; version = version; stream = rest } in
    rw
      (
        read_exact-append 8 (order.write_uint 8 (length bytes)) (bytes ++ rest)
            (order.write_uint 8 (length bytes) ++ (bytes ++ rest)) refl
            (order.length-write_uint 8 (length bytes)),
        order.read_uint-write_uint 8 (length bytes) b,
        read_exact-append (length bytes) bytes rest (bytes ++ rest) refl refl,
      )
      (ap (λ (t : ℕ). ok (bytes, left t)) (omega arith))
