-- ===== src/Transaction/KernelBytes.antt =====
-- core/src/core/transaction.rs: the bytes that kernel features are written as.
use grin.Prelude.{ℕ, ◌^◌, ◌≤◌, ◌<◌, ◌≡◌, refl, ap, ◌∙◌, Result, ok, List, [], ◌∷◌, replicate, ◌++◌}
use mathlib.Core.List.{append_assoc}
use grin.Ser.Types.{ByteOrder, Error}
use grin.Ser.Writer.{Writer, write_u8, write_u16, write_u64, write_empty_bytes, write_fixed_bytes}
use grin.Transaction.Kernel.{
  nrd_max, KernelFeatures, plain, coinbase, height_locked, no_recent_duplicate, as_u8,
}
use grin.Transaction.KernelCodec.{write_fee, write_height, write_v1, write_v2}

-- The fields are words, and a relative height is one that try_from_u16 makes.
unfoldable pub IsValid : KernelFeatures → Type 0
IsValid (plain fee) = fee.bits < 2 ^ 64
IsValid coinbase = Unit {0}
IsValid (height_locked fee lock_height) = (fee.bits < 2 ^ 64) × (lock_height < 2 ^ 64)
IsValid (no_recent_duplicate fee relative_height) =
    (fee.bits < 2 ^ 64) × (0 < relative_height.height) × (relative_height.height ≤ nrd_max)

module _ (order : ByteOrder) where
  -- The bytes of each version.
  abbrev pub bytes_v1 : KernelFeatures → List ℕ
  bytes_v1 (plain fee) = 0 ∷ (order.write_uint 8 (fee.bits) ++ replicate 8 0)
  bytes_v1 coinbase = 1 ∷ replicate 16 0
  bytes_v1 (height_locked fee lock_height) =
      2 ∷ (order.write_uint 8 (fee.bits) ++ order.write_uint 8 lock_height)
  bytes_v1 (no_recent_duplicate fee relative_height) =
      3
      ∷ (order.write_uint 8 (fee.bits)
          ++ (replicate 6 0 ++ order.write_uint 2 (relative_height.height)))

  abbrev pub bytes_v2 : KernelFeatures → List ℕ
  bytes_v2 (plain fee) = 0 ∷ order.write_uint 8 (fee.bits)
  bytes_v2 coinbase = 1 ∷ []
  bytes_v2 (height_locked fee lock_height) =
      2 ∷ (order.write_uint 8 (fee.bits) ++ order.write_uint 8 lock_height)
  bytes_v2 (no_recent_duplicate fee relative_height) =
      3 ∷ (order.write_uint 8 (fee.bits) ++ order.write_uint 2 (relative_height.height))

  abbrev pub written : Writer → List ℕ → Writer
  written w bytes = record { sink = w.sink ++ bytes; version = w.version; mode = w.mode }

  abbrev pub done : Writer → Result Error (Unit {0} × Writer)
  done w = ok (tt, w)

  glue2 : (w : Writer) (a b : List ℕ) → done (written (written w a) b) ≡ done (written w (a ++ b))
  glue2 w a b =
      ap (λ (bs : List ℕ). done (record { sink = bs; version = w.version; mode = w.mode }))
        (append_assoc (w.sink) a b)

  glue3 :
      (w : Writer) (a b c : List ℕ)
      → done (written (written (written w a) b) c) ≡ done (written w (a ++ (b ++ c)))
  glue3 w a b c =
      rw (append_assoc (w.sink) a b, append_assoc (w.sink) (a ++ b) c, append_assoc a b c) refl

  pub writes_v1 :
      (f : KernelFeatures) (w : Writer) → write_v1 order f w ≡ ok (tt, written w (bytes_v1 f))
  unfolding write_v1 write_fee write_height write_u8 write_u64 write_u16 write_empty_bytes
      write_fixed_bytes as_u8
  writes_v1 (plain fee) w = glue3 w (0 ∷ []) (order.write_uint 8 (fee.bits)) (replicate 8 0)
  writes_v1 coinbase w = glue2 w (1 ∷ []) (replicate 16 0)
  writes_v1 (height_locked fee lock_height) w =
      glue3 w (2 ∷ []) (order.write_uint 8 (fee.bits)) (order.write_uint 8 lock_height)
  writes_v1 (no_recent_duplicate fee relative_height) w =
      glue3 (written w (3 ∷ [])) (order.write_uint 8 (fee.bits)) (replicate 6 0)
        (order.write_uint 2 (relative_height.height))
      ∙ glue2 w (3 ∷ []) (
          order.write_uint 8 (fee.bits)
          ++ (replicate 6 0 ++ order.write_uint 2 (relative_height.height)))

  pub writes_v2 :
      (f : KernelFeatures) (w : Writer) → write_v2 order f w ≡ ok (tt, written w (bytes_v2 f))
  unfolding write_v2 write_fee write_height write_u8 write_u64 write_u16 write_fixed_bytes as_u8
  writes_v2 (plain fee) w = glue2 w (0 ∷ []) (order.write_uint 8 (fee.bits))
  writes_v2 coinbase w = refl
  writes_v2 (height_locked fee lock_height) w =
      glue3 w (2 ∷ []) (order.write_uint 8 (fee.bits)) (order.write_uint 8 lock_height)
  writes_v2 (no_recent_duplicate fee relative_height) w =
      glue3 w (3 ∷ []) (order.write_uint 8 (fee.bits)) (order.write_uint 2 (relative_height.height))
