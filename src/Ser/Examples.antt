-- ===== src/Ser/Examples.antt =====
-- core/src/ser.rs: the counting of a streaming reader at a concrete stream.
use grin.Prelude.{◌≡◌, [], ◌∷◌, ◌++◌, ok, arith}
use grin.Ser.BigEndian.{big_endian}
use grin.Ser.StreamingReader.{read_bytes_len_prefix}
use grin.Ser.Counting.{read_bytes_len_prefix_counts}

-- Two bytes behind their length: 18 is counted, 10 are read.
read_bytes_len_prefix_counts_example :
    read_bytes_len_prefix big_endian (record {
      total_bytes_read = 0;
      version = 1;
      stream = big_endian.write_uint 8 2 ++ (7 ∷ 9 ∷ 5 ∷ []);
    })
    ≡ ok (7 ∷ 9 ∷ [], record { total_bytes_read = 18; version = 1; stream = 5 ∷ [] })
read_bytes_len_prefix_counts_example =
    read_bytes_len_prefix_counts big_endian 0 1 (7 ∷ 9 ∷ []) (5 ∷ []) (omega arith)
