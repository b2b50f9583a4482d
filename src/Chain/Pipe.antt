-- ===== src/Chain/Pipe.antt =====
-- chain/src/pipe.rs: the checks of a header, and what is known of one. A panic is `none`.
use grin.Prelude.{
  ℕ, ◌+◌, ◌-◌, Option, none, some, List, Bool, any, not, ◌&&◌, ◌||◌, ltb, leb, ◌==◌, if◌then◌else◌,
  add64, sub64, Result, ok, err,
}
use grin.Prelude.Try.{◌>>◌}
use mathlib.Core.Option
use grin.Global.Chain.{ChainTypes, max_block_weight}
use grin.Global.History.{HeaderDifficultyInfo}
use grin.Consensus.Params.{dma_window}
use grin.Consensus.Version.{valid_header_version}
use grin.Consensus.Difficulty.{next_difficulty}
use grin.Pow.Difficulty.{Proof, is_primary, is_secondary, to_difficulty}
use grin.Transaction.Body.{weight_by_iok}
use grin.Block.Header
use grin.Block.Header.{
  BlockHeader, BlockError, too_heavy, other, total_difficulty, output_mmr_count, kernel_mmr_count,
}
use grin.Chain.DifficultyIter.{Store, get_previous_header, from_batch, items}

pub data Known : Type 0 where
  in_head : Known
  in_store : Known

pub data ChainError : Type 0 where
  unfit : Known → ChainError
  difficulty_too_low : ChainError
  wrong_total_difficulty : ChainError
  low_edgebits : ChainError
  invalid_scaling : ChainError
  invalid_pow : ChainError
  old_block : ChainError
  invalid_block_time : ChainError
  invalid_block_height : ChainError
  invalid_block_version : ℕ → ChainError
  invalid_mmr_size : ChainError
  block : BlockError → ChainError
  store_err : ChainError

abbrev pub Checked : Type 0
Checked = Result ChainError (Unit {0})

abbrev pub refuse_if : Bool → ChainError → Checked
refuse_if b e = if b then err e else ok tt

pub record Tip : Type 0 where
  pub height : ℕ
  pub last_block_h : ℕ
  pub prev_block_h : ℕ
  pub total_difficulty : ℕ

-- What a header is checked with: the hash of a header, that of a proof, the proof-of-work verifier and
-- the rules of the caller.
pub record BlockContext : Type 0 where
  pub chain : ChainTypes
  pub skip_pow : Bool
  pub hash : BlockHeader → ℕ
  pub hash_to_u64 : Proof → ℕ
  pub pow_verifier : BlockHeader → Bool
  pub header_allowed : BlockHeader → Checked
  pub store : Store

abbrev pub tip_from_header : (BlockHeader → ℕ) → BlockHeader → Tip
tip_from_header hash header = record {
  height = header.height;
  last_block_h = hash header;
  prev_block_h = header.prev_hash;
  total_difficulty = Header.total_difficulty header;
}

unfoldable pub has_more_work : BlockHeader → Tip → Bool
has_more_work header head = ltb (head.total_difficulty) (Header.total_difficulty header)

unfoldable pub validate_header_denylist : (BlockHeader → ℕ) → BlockHeader → List ℕ → Checked
validate_header_denylist hash header denylist =
    refuse_if (any (λ (h : ℕ). h == hash header) denylist) (block other)

module _ (ctx : BlockContext) where
  unfoldable pub check_known_head : BlockHeader → Tip → Checked
  check_known_head header head =
      refuse_if (ctx.hash header == head.last_block_h || ctx.hash header == head.prev_block_h)
        (unfit in_head)

  unfoldable pub check_known_store : BlockHeader → Tip → Checked
  check_known_store header head =
      if ctx.store.block_exists (ctx.hash header)
      then err (if ltb (header.height) (head.height - 50) then old_block else unfit in_store)
      else ok tt

  unfoldable pub check_known : BlockHeader → Tip → Checked
  check_known header head =
      if leb (Header.total_difficulty header) (head.total_difficulty)
      then check_known_head header head >> check_known_store header head
      else ok tt

  unfoldable pub prev_header_store : BlockHeader → Result ChainError BlockHeader
  prev_header_store header = elim (get_previous_header (ctx.store) header) [
    | none ↦ err store_err
    | some prev ↦ ok prev
  ]

  unfoldable pub validate_pow_only : BlockHeader → Checked
  validate_pow_only header =
      let checked : Checked =
        refuse_if (not (is_primary (ctx.chain) (header.pow)) && not (is_secondary (header.pow)))
          low_edgebits
        >> refuse_if (not (ctx.pow_verifier header)) invalid_pow in
      if ctx.skip_pow then ok tt else checked

  -- The checks against the previous header alone.
  unfoldable pub check_numbers : BlockHeader → BlockHeader → Checked
  check_numbers prev header =
      let num_outputs = output_mmr_count header - output_mmr_count prev in
      let num_kernels = kernel_mmr_count header - kernel_mmr_count prev in
      refuse_if (not (header.height == add64 (prev.height) 1)) invalid_block_height
      >> (refuse_if (not (valid_header_version (ctx.chain) (header.height) (header.version)))
            (invalid_block_version (header.version))
          >> (refuse_if (leb (header.timestamp) (prev.timestamp)) invalid_block_time
              >> (refuse_if (num_outputs == 0 || num_kernels == 0) invalid_mmr_size
                  >> refuse_if
                      (ltb (max_block_weight (ctx.chain)) (weight_by_iok 0 num_outputs num_kernels))
                      (block too_heavy))))

  abbrev pub target_difficulty : BlockHeader → BlockHeader → ℕ
  target_difficulty prev header =
      sub64 (Header.total_difficulty header) (Header.total_difficulty prev)

  -- The proof of work of the header, as far as no other headers are needed.
  unfoldable pub check_work : BlockHeader → BlockHeader → Checked
  check_work prev header =
      validate_pow_only header
      >> (refuse_if (leb (Header.total_difficulty header) (Header.total_difficulty prev))
            difficulty_too_low
          >> refuse_if
              (ltb (to_difficulty (ctx.hash_to_u64) (ctx.chain) (header.height) (header.pow))
                (target_difficulty prev header))
              difficulty_too_low)

  -- The difficulty that the headers before ask for.
  unfoldable pub check_next : BlockHeader → BlockHeader → HeaderDifficultyInfo → Checked
  check_next prev header next_header_info =
      refuse_if (not (target_difficulty prev header == next_header_info.difficulty))
        wrong_total_difficulty
      >> refuse_if
          (ltb (header.version) 5
            && not (header.pow.secondary_scaling == next_header_info.secondary_scaling))
          invalid_scaling

  -- next_difficulty reads at most dma_window + 1 headers.
  unfoldable pub next_header_info : BlockHeader → BlockHeader → Option HeaderDifficultyInfo
  next_header_info prev header =
      next_difficulty (ctx.chain) (header.height)
        (items (ctx.store) (dma_window + 1) (from_batch (ctx.hash prev)))

  unfoldable pub check_difficulty : BlockHeader → BlockHeader → Option Checked
  check_difficulty prev header = elim (check_work prev header) [
    | err e ↦ some (err e)
    | ok _ ↦ Option.map (check_next prev header) (next_header_info prev header)
  ]

  unfoldable pub validate_after : BlockHeader → BlockHeader → Option Checked
  validate_after prev header = elim (check_numbers prev header) [
    | err e ↦ some (err e)
    | ok _ ↦ if ctx.skip_pow then some (ok tt) else check_difficulty prev header
  ]

  unfoldable pub validate_header : BlockHeader → Option Checked
  validate_header header = elim (ctx.header_allowed header >> prev_header_store header) [
    | err e ↦ some (err e)
    | ok prev ↦ validate_after prev header
  ]
