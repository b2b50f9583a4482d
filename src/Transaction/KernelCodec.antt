-- ===== src/Transaction/KernelCodec.antt =====
-- core/src/core/transaction.rs: the binary format of kernel features, in both versions.
use grin.Prelude.{ℕ, Bool, leb, ◌==◌, if◌then◌else◌, Result, ok, err}
use grin.Ser.Types.{ByteOrder, corrupted_data, is_hash_mode}
use grin.Ser.Stream.{Stream, pure, fail, ◌>>=◌}
use grin.Ser.Writer.{Writer, write_u8, write_u16, write_u64, write_empty_bytes}
use grin.Ser.Reader.{Reader, read_empty_bytes}
use grin.Transaction.Errors.{Error as TransactionError}
use grin.Transaction.Fee.{FeeFields}
use grin.Transaction.Kernel.{
  NrdRelativeHeight, try_from_u16, KernelFeatures, plain, coinbase, height_locked,
  no_recent_duplicate, as_u8,
}

module _ (order : ByteOrder) where
  unfoldable pub write_fee : FeeFields → Stream Writer (Unit {0})
  write_fee fee = write_u64 order (fee.bits)

  unfoldable pub write_height : NrdRelativeHeight → Stream Writer (Unit {0})
  write_height height = write_u16 order (height.height)

  unfoldable pub write_v1 : KernelFeatures → Stream Writer (Unit {0})
  write_v1 (plain fee) = do _ ← write_u8 (as_u8 (plain fee)); _ ← write_fee fee; write_empty_bytes 8
  write_v1 coinbase = do _ ← write_u8 (as_u8 coinbase); write_empty_bytes 16
  write_v1 (height_locked fee lock_height) = do
    _ ← write_u8 (as_u8 (height_locked fee lock_height))
    _ ← write_fee fee
    write_u64 order lock_height
  write_v1 (no_recent_duplicate fee relative_height) = do
    _ ← write_u8 (as_u8 (no_recent_duplicate fee relative_height))
    _ ← write_fee fee
    _ ← write_empty_bytes 6
    write_height relative_height

  unfoldable pub write_v2 : KernelFeatures → Stream Writer (Unit {0})
  write_v2 (plain fee) = do _ ← write_u8 (as_u8 (plain fee)); write_fee fee
  write_v2 coinbase = write_u8 (as_u8 coinbase)
  write_v2 (height_locked fee lock_height) = do
    _ ← write_u8 (as_u8 (height_locked fee lock_height))
    _ ← write_fee fee
    write_u64 order lock_height
  write_v2 (no_recent_duplicate fee relative_height) = do
    _ ← write_u8 (as_u8 (no_recent_duplicate fee relative_height))
    _ ← write_fee fee
    write_height relative_height

  unfoldable pub write : KernelFeatures → Stream Writer (Unit {0})
  write features w =
      if is_hash_mode (w.mode)
      then write_v1 features w
      else if leb (w.version) 1
      then write_v1 features w
      else write_v2 features w

-- The flag is that of global::is_nrd_enabled.
module _ {S : Type 0} (r : Reader S) (nrd_enabled : Bool) where
  unfoldable pub read_fee : Stream S FeeFields
  read_fee = do fee_fields ← r.read_u64; pure (record { bits = fee_fields })

  unfoldable pub height_or_corrupted :
      Result TransactionError NrdRelativeHeight → Stream S NrdRelativeHeight
  height_or_corrupted (ok height) = pure height
  height_or_corrupted (err e) = fail corrupted_data

  unfoldable pub read_height : Stream S NrdRelativeHeight
  read_height = do x ← r.read_u16; height_or_corrupted (try_from_u16 x)

  -- The arms of read_v1 and read_v2, which have some in common.
  unfoldable pub read_plain_v1 : Stream S KernelFeatures
  read_plain_v1 = do fee ← read_fee; _ ← read_empty_bytes r 8; pure (plain fee)

  unfoldable pub read_plain_v2 : Stream S KernelFeatures
  read_plain_v2 = do fee ← read_fee; pure (plain fee)

  unfoldable pub read_coinbase_v1 : Stream S KernelFeatures
  read_coinbase_v1 = do _ ← read_empty_bytes r 16; pure coinbase

  unfoldable pub read_height_locked : Stream S KernelFeatures
  read_height_locked = do
    fee ← read_fee
    lock_height ← r.read_u64
    pure (height_locked fee lock_height)

  unfoldable pub read_nrd_v1 : Stream S KernelFeatures
  read_nrd_v1 = do
    fee ← read_fee
    _ ← read_empty_bytes r 6
    relative_height ← read_height
    pure (no_recent_duplicate fee relative_height)

  unfoldable pub read_nrd_v2 : Stream S KernelFeatures
  read_nrd_v2 = do
    fee ← read_fee
    relative_height ← read_height
    pure (no_recent_duplicate fee relative_height)

  -- NRD kernels are invalid where the feature flag is off.
  unfoldable pub guard_nrd : Stream S KernelFeatures → Stream S KernelFeatures
  guard_nrd arm = if nrd_enabled then arm else fail corrupted_data

  -- The `match` on the feature byte.
  unfoldable pub match_features :
      ℕ
      → Stream S KernelFeatures
      → Stream S KernelFeatures
      → Stream S KernelFeatures
      → Stream S KernelFeatures
      → Stream S KernelFeatures
  match_features byte on_plain on_coinbase on_height_locked on_nrd =
      if byte == 0
      then on_plain
      else if byte == 1
      then on_coinbase
      else if byte == 2
      then on_height_locked
      else if byte == 3
      then on_nrd
      else fail corrupted_data

  unfoldable pub read_v1 : Stream S KernelFeatures
  read_v1 = do
    feature_byte ← r.read_u8
    match_features feature_byte read_plain_v1 read_coinbase_v1 read_height_locked
        (guard_nrd read_nrd_v1)

  unfoldable pub read_v2 : Stream S KernelFeatures
  read_v2 = do
    feature_byte ← r.read_u8
    match_features feature_byte read_plain_v2 (pure coinbase) read_height_locked
        (guard_nrd read_nrd_v2)

  unfoldable pub read : Stream S KernelFeatures
  read s =
      let v1 = read_v1 s in let v2 = read_v2 s in if leb (r.protocol_version s) 1 then v1 else v2
