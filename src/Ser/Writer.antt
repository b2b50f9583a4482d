-- ===== src/Ser/Writer.antt =====
-- core/src/ser.rs: the trait Writer and BinWriter. The sink is a `Vec<u8>`, to which every write
-- succeeds.
use grin.Prelude.{ℕ, List, [], ◌∷◌, ◌++◌, ok, replicate, length}
use grin.Ser.Types.{SerializationMode, ByteOrder}
use grin.Ser.Stream.{Stream, pure, ◌>>=◌, ◌>>◌}

pub record Writer : Type 0 where
  pub sink : List ℕ
  pub version : ℕ
  pub mode : SerializationMode

unfoldable pub write_fixed_bytes : List ℕ → Stream Writer (Unit {0})
write_fixed_bytes bytes w =
    ok (tt, record { sink = w.sink ++ bytes; version = w.version; mode = w.mode })

unfoldable pub write_u8 : ℕ → Stream Writer (Unit {0})
write_u8 n = write_fixed_bytes (n ∷ [])

unfoldable pub write_empty_bytes : ℕ → Stream Writer (Unit {0})
write_empty_bytes len = write_fixed_bytes (replicate len 0)

module _ (order : ByteOrder) where
  unfoldable pub write_u16 : ℕ → Stream Writer (Unit {0})
  write_u16 n = write_fixed_bytes (order.write_uint 2 n)

  unfoldable pub write_u32 : ℕ → Stream Writer (Unit {0})
  write_u32 n = write_fixed_bytes (order.write_uint 4 n)

  unfoldable pub write_u64 : ℕ → Stream Writer (Unit {0})
  write_u64 n = write_fixed_bytes (order.write_uint 8 n)

  unfoldable pub write_bytes : List ℕ → Stream Writer (Unit {0})
  write_bytes bytes = write_u64 (length bytes) >> write_fixed_bytes bytes

-- Writeable for Vec.
module _ {A : Type 0} where
  unfoldable pub write_all : (A → Stream Writer (Unit {0})) → List A → Stream Writer (Unit {0})
  write_all write_one [] = pure tt
  write_all write_one (x ∷ xs) = do _ ← write_one x; write_all write_one xs
