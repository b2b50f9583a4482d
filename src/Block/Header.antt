-- ===== src/Block/Header.antt =====
-- core/src/core/block.rs: headers and blocks. A hash is a number, and so is a kernel offset. A time is the
-- number of its seconds from 1970 on, which an i64 holds; times before that are left out.
use grin.Prelude.{ℕ, ◌-◌, ◌%◌, ◌^◌, Bool, add64, mul64, if◌then◌else◌, ◌==◌}
use grin.Global.Chain.{ChainTypes}
use grin.Consensus.Params.{reward_const}
use grin.Pmmr.Index.{n_leaves}
use grin.Pow.Difficulty.{ProofOfWork, default_pow, is_secondary}
use grin.Transaction.Types.{TransactionBody}
use grin.Transaction.Builder.{empty_body}
use grin.Transaction.Errors as Errors

-- The errors of the checks that are modelled. Those of the libraries are kept without their contents.
pub data BlockError : Type 0 where
  kernel_sum_mismatch : BlockError
  coinbase_sum_mismatch : BlockError
  too_heavy : BlockError
  kernel_lock_height : ℕ → BlockError
  nrd_kernel_pre_hf3 : BlockError
  nrd_kernel_not_enabled : BlockError
  transaction : Errors.Error → BlockError
  secp : BlockError
  committed : BlockError
  other : BlockError

pub record BlockHeader : Type 0 where
  pub version : ℕ
  pub height : ℕ
  pub prev_hash : ℕ
  pub prev_root : ℕ
  pub timestamp : ℕ
  pub output_root : ℕ
  pub range_proof_root : ℕ
  pub kernel_root : ℕ
  pub total_kernel_offset : ℕ
  pub output_mmr_size : ℕ
  pub kernel_mmr_size : ℕ
  pub pow : ProofOfWork

abbrev pub default_header : ChainTypes → BlockHeader
default_header chain = record {
  version = 1;
  height = 0;
  prev_hash = 0;
  prev_root = 0;
  timestamp = 0;
  output_root = 0;
  range_proof_root = 0;
  kernel_root = 0;
  total_kernel_offset = 0;
  output_mmr_size = 0;
  kernel_mmr_size = 0;
  pow = default_pow chain;
}

pub record HeaderEntry : Type 0 where
  pub hash : ℕ
  pub timestamp : ℕ
  pub total_difficulty : ℕ
  pub secondary_scaling : ℕ
  pub is_secondary : Bool

abbrev pub total_difficulty : BlockHeader → ℕ
total_difficulty header = header.pow.total_difficulty

abbrev pub as_elmt : (BlockHeader → ℕ) → BlockHeader → HeaderEntry
as_elmt hash header = record {
  hash = hash header;
  timestamp = header.timestamp;
  total_difficulty = total_difficulty header;
  secondary_scaling = header.pow.secondary_scaling;
  is_secondary = is_secondary (header.pow);
}

unfoldable pub output_mmr_count : BlockHeader → ℕ
output_mmr_count header = n_leaves (header.output_mmr_size)

unfoldable pub kernel_mmr_count : BlockHeader → ℕ
kernel_mmr_count header = n_leaves (header.kernel_mmr_size)

-- `checked_neg` of an i64, by its 64 bits. The lowest one has no negative, and gives 0 then.
abbrev pub neg_or_zero : ℕ → ℕ
neg_or_zero bits = if bits == 2 ^ 63 then 0 else (2 ^ 64 - bits) % 2 ^ 64

unfoldable pub header_overage : ℕ
header_overage = neg_or_zero reward_const

unfoldable pub total_overage : Bool → BlockHeader → ℕ
total_overage genesis_had_reward header =
    let reward_count = if genesis_had_reward then add64 (header.height) 1 else header.height in
    neg_or_zero (mul64 reward_count reward_const)

pub record Block : Type 0 where
  pub header : BlockHeader
  pub body : TransactionBody

abbrev pub with_header : BlockHeader → Block
with_header header = record { header = header; body = empty_body }
