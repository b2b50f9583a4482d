-- ===== src/Ser/BinReader.antt =====
-- core/src/ser.rs: BinReader.
use grin.Prelude.{ℕ, List, Result, ok, err, ltb, if◌then◌else◌}
use grin.Ser.Types.{Error, ErrorKind, io_err, too_large_read_err, max_read_size, ByteOrder}
use grin.Ser.Stream.{Stream, pure, ◌>>=◌}
use grin.Ser.Reader.{Reader}
use grin.Ser.Source.{read_exact, first, DeserializationMode}

pub record BinReader : Type 0 where
  pub source : List ℕ
  pub version : ℕ
  pub deser_mode : DeserializationMode

unfoldable pub advance :
    BinReader → Result ErrorKind (List ℕ × List ℕ) → Result Error (List ℕ × BinReader)
advance s (ok read) =
    ok (read.0, record { source = read.1; version = s.version; deser_mode = s.deser_mode })
advance s (err kind) = err (io_err kind)

-- What the byteorder crate's ReadBytesExt does: read_exact, then the number.
unfoldable pub read_exact_bytes : ℕ → Stream BinReader (List ℕ)
read_exact_bytes len s = advance s (read_exact len (s.source))

unfoldable pub read_fixed_bytes : ℕ → Stream BinReader (List ℕ)
read_fixed_bytes len s =
    let read = read_exact_bytes len s in
    if ltb max_read_size len then err too_large_read_err else read

unfoldable pub read_u8 : Stream BinReader ℕ
read_u8 = do buf ← read_exact_bytes 1; pure (first buf)

module _ (order : ByteOrder) where
  unfoldable pub read_u16 : Stream BinReader ℕ
  read_u16 = do buf ← read_exact_bytes 2; pure (order.read_uint buf)

  unfoldable pub read_u32 : Stream BinReader ℕ
  read_u32 = do buf ← read_exact_bytes 4; pure (order.read_uint buf)

  unfoldable pub read_u64 : Stream BinReader ℕ
  read_u64 = do buf ← read_exact_bytes 8; pure (order.read_uint buf)

  unfoldable pub read_bytes_len_prefix : Stream BinReader (List ℕ)
  read_bytes_len_prefix = do len ← read_u64; read_fixed_bytes len

  unfoldable pub reader : Reader BinReader
  reader = record {
    protocol_version = λ s. s.version;
    read_u8 = read_u8;
    read_u16 = read_u16;
    read_u32 = read_u32;
    read_u64 = read_u64;
    read_fixed_bytes = read_fixed_bytes;
  }
