-- ===== src/Ser/StreamingReader.antt =====
-- core/src/ser.rs: StreamingReader.
use grin.Prelude.{ℕ, List, Result, ok, err, add64}
use grin.Ser.Types.{Error, ErrorKind, io_err, ByteOrder}
use grin.Ser.Stream.{Stream, pure, ◌>>=◌}
use grin.Ser.Reader.{Reader}
use grin.Ser.Source.{read_exact, first}

pub record StreamingReader : Type 0 where
  pub total_bytes_read : ℕ
  pub version : ℕ
  pub stream : List ℕ

unfoldable pub advance :
    ℕ
    → StreamingReader
    → Result ErrorKind (List ℕ × List ℕ)
    → Result Error (List ℕ × StreamingReader)
advance len s (ok read) = ok (
  read.0,
  record {
    total_bytes_read = add64 (s.total_bytes_read) len;
    version = s.version;
    stream = read.1;
  },
)
advance len s (err kind) = err (io_err kind)

unfoldable pub read_fixed_bytes : ℕ → Stream StreamingReader (List ℕ)
read_fixed_bytes len s = advance len s (read_exact len (s.stream))

unfoldable pub read_u8 : Stream StreamingReader ℕ
read_u8 = do buf ← read_fixed_bytes 1; pure (first buf)

unfoldable pub count_prefix : Stream StreamingReader (Unit {0})
count_prefix s = ok (
  tt,
  record {
    total_bytes_read = add64 (s.total_bytes_read) 8;
    version = s.version;
    stream = s.stream;
  },
)

module _ (order : ByteOrder) where
  unfoldable pub read_u16 : Stream StreamingReader ℕ
  read_u16 = do buf ← read_fixed_bytes 2; pure (order.read_uint buf)

  unfoldable pub read_u32 : Stream StreamingReader ℕ
  read_u32 = do buf ← read_fixed_bytes 4; pure (order.read_uint buf)

  unfoldable pub read_u64 : Stream StreamingReader ℕ
  read_u64 = do buf ← read_fixed_bytes 8; pure (order.read_uint buf)

  -- The prefix is counted twice, in read_u64 and again here.
  unfoldable pub read_bytes_len_prefix : Stream StreamingReader (List ℕ)
  read_bytes_len_prefix = do len ← read_u64; _ ← count_prefix; read_fixed_bytes len

  unfoldable pub reader : Reader StreamingReader
  reader = record {
    protocol_version = λ s. s.version;
    read_u8 = read_u8;
    read_u16 = read_u16;
    read_u32 = read_u32;
    read_u64 = read_u64;
    read_fixed_bytes = read_fixed_bytes;
  }
