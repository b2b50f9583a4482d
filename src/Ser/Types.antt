-- ===== src/Ser/Types.antt =====
-- core/src/ser.rs: errors and modes. The message texts of the errors are left out.
use grin.Prelude.{ℕ, ◌^◌, ◌<◌, ◌≡◌, List, length, Bool, true, false}

pub data ErrorKind : Type 0 where
  unexpected_eof : ErrorKind
  other : ErrorKind

pub data Error : Type 0 where
  io_err : ErrorKind → Error
  unexpected_data : List ℕ → List ℕ → Error
  corrupted_data : Error
  count_error : Error
  too_large_read_err : Error
  hex_error : Error
  sort_error : Error
  duplicate_error : Error
  invalid_block_version : Error
  unsupported_protocol_version : Error

pub data SerializationMode : Type 0 where
  full : SerializationMode
  hash : SerializationMode

unfoldable pub is_hash_mode : SerializationMode → Bool
is_hash_mode full = false
is_hash_mode hash = true

-- ProtocolVersion::local, the PROTOCOL_VERSION of the crate's global module, and local_db.
abbrev pub protocol_version_local : ℕ
protocol_version_local = 1000

abbrev pub protocol_version_local_db : ℕ
protocol_version_local_db = 1

abbrev pub max_read_size : ℕ
max_read_size = 100000

-- The byteorder crate's BigEndian, for a width in bytes: what is written has that width and is
-- read back as the same number.
pub record ByteOrder : Type 0 where
  pub write_uint : ℕ → ℕ → List ℕ
  pub read_uint : List ℕ → ℕ
  pub length-write_uint : (w n : ℕ) → length (write_uint w n) ≡ w
  pub read_uint-write_uint : (w n : ℕ) → n < 256 ^ w → read_uint (write_uint w n) ≡ n
