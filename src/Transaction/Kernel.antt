-- ===== src/Transaction/Kernel.antt =====
-- core/src/core/transaction.rs: NRDRelativeHeight, KernelFeatures and TxKernel.
use grin.Prelude.{ℕ, ◌^◌, Bool, true, false, ◌||◌, ltb, ◌==◌, if◌then◌else◌, Result, ok, err}
use grin.Consensus.Params.{week_height}
use grin.Transaction.Errors.{Error, invalid_nrd_relative_height}
use grin.Transaction.Fee.{FeeFields}

-- A u16.
pub record NrdRelativeHeight : Type 0 where
  pub height : ℕ

abbrev pub nrd_max : ℕ
nrd_max = week_height

unfoldable pub try_from_u16 : ℕ → Result Error NrdRelativeHeight
try_from_u16 height =
    if height == 0 || ltb nrd_max height
    then err invalid_nrd_relative_height
    else ok (record { height = height })

-- TryFrom<u64>, and NRDRelativeHeight::new.
unfoldable pub try_from_u64 : ℕ → Result Error NrdRelativeHeight
try_from_u64 height =
    if ltb height (2 ^ 16) then try_from_u16 height else err invalid_nrd_relative_height

pub data KernelFeatures : Type 0 where
  plain : FeeFields → KernelFeatures
  coinbase : KernelFeatures
  height_locked : FeeFields → ℕ → KernelFeatures
  no_recent_duplicate : FeeFields → NrdRelativeHeight → KernelFeatures

unfoldable pub as_u8 : KernelFeatures → ℕ
as_u8 (plain fee) = 0
as_u8 coinbase = 1
as_u8 (height_locked fee lock_height) = 2
as_u8 (no_recent_duplicate fee relative_height) = 3

unfoldable pub is_coinbase : KernelFeatures → Bool
is_coinbase coinbase = true
is_coinbase (plain fee) = false
is_coinbase (height_locked fee lock_height) = false
is_coinbase (no_recent_duplicate fee relative_height) = false

unfoldable pub is_plain : KernelFeatures → Bool
is_plain (plain fee) = true
is_plain coinbase = false
is_plain (height_locked fee lock_height) = false
is_plain (no_recent_duplicate fee relative_height) = false

unfoldable pub is_height_locked : KernelFeatures → Bool
is_height_locked (height_locked fee lock_height) = true
is_height_locked coinbase = false
is_height_locked (plain fee) = false
is_height_locked (no_recent_duplicate fee relative_height) = false

unfoldable pub is_nrd : KernelFeatures → Bool
is_nrd (no_recent_duplicate fee relative_height) = true
is_nrd coinbase = false
is_nrd (plain fee) = false
is_nrd (height_locked fee lock_height) = false
