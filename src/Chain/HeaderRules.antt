-- ===== src/Chain/HeaderRules.antt =====
-- chain/src/pipe.rs: the headers that validate_header accepts.
use grin.Prelude.{
  ◌+◌, ◌-◌, ◌*◌, ◌%◌, ◌^◌, ◌≤◌, ◌<◌, ◌≡◌, ◌⊎◌, ◌↔◌, Option, none, some, true, false, Result, ok,
  err, add64,
}
use grin.Prelude.Try.{◌>>◌}
use grin.Global.Chain.{max_block_weight}
use grin.Global.History.{HeaderDifficultyInfo}
use grin.Consensus.Version.{header_version, valid_header_version}
use grin.Pow.Difficulty.{is_primary, is_secondary, to_difficulty}
use grin.Transaction.Checks.{in_turn, through}
use grin.Transaction.Validation.{parts, chain_bounds}
use grin.Block.Header.{BlockHeader, total_difficulty, output_mmr_count, kernel_mmr_count}
use grin.Chain.DifficultyIter.{get_previous_header}
use grin.Chain.Guards.{
  guard, refuse_ne, refuse_le, refuse_lt, refuse_none, refuse_heavy, refuse_scaling, refuse_bits,
  refuse_not, after_ok, mapped, then_ok, unless,
}
use grin.Chain.Pipe.{
  ChainError, BlockContext, validate_header, validate_after, check_numbers, check_work, check_next,
  check_difficulty, target_difficulty, next_header_info, validate_pow_only, prev_header_store,
  store_err,
}

-- What the header before says of the next one.
abbrev pub Follows : BlockContext → BlockHeader → BlockHeader → Type 0
Follows ctx prev header =
    (header.height ≡ (prev.height + 1) % 2 ^ 64)
    × ((header.version ≡ header_version (ctx.chain) (header.height))
        × ((prev.timestamp < header.timestamp)
            × (((output_mmr_count prev < output_mmr_count header)
                  × (kernel_mmr_count prev < kernel_mmr_count header))
                × (21 * (output_mmr_count header - output_mmr_count prev)
                      + 3 * (kernel_mmr_count header - kernel_mmr_count prev)
                    ≤ max_block_weight (ctx.chain)))))

-- The work of a header, before the difficulty that is asked for is known.
abbrev pub HasWork : BlockContext → BlockHeader → BlockHeader → Type 0
HasWork ctx prev header =
    (((is_primary (ctx.chain) (header.pow) ≡ true) ⊎ (is_secondary (header.pow) ≡ true))
      × (ctx.pow_verifier header ≡ true))
    × ((total_difficulty prev < total_difficulty header)
        × (target_difficulty ctx prev header
            ≤ to_difficulty (ctx.hash_to_u64) (ctx.chain) (header.height) (header.pow)))

abbrev pub IsAsked : BlockContext → BlockHeader → BlockHeader → HeaderDifficultyInfo → Type 0
IsAsked ctx prev header info =
    (target_difficulty ctx prev header ≡ info.difficulty)
    × (header.version < 5 → header.pow.secondary_scaling ≡ info.secondary_scaling)

module _ (ctx : BlockContext) (prev header : BlockHeader) where
  check_numbers_iff : (check_numbers ctx prev header ≡ ok tt) ↔ Follows ctx prev header
  unfolding check_numbers valid_header_version
  check_numbers_iff =
      let (_, small) = chain_bounds (ctx.chain) in
      let o = output_mmr_count header in
      let o' = output_mmr_count prev in
      let k = kernel_mmr_count header in
      let k' = kernel_mmr_count prev in
      through (in_turn _ _) (
        parts (guard _ _ (refuse_ne (header.height) (add64 (prev.height) 1))) (
          through (in_turn _ _) (
            parts
              (guard _ _ (refuse_ne (header.version) (header_version (ctx.chain) (header.height))))
              (through (in_turn _ _) (
                parts (guard _ _ (refuse_le (header.timestamp) (prev.timestamp))) (
                  through (in_turn _ _) (
                    parts (guard _ _ (refuse_none o o' k k')) (
                      guard _ _ (
                        refuse_heavy (o - o') (k - k') (max_block_weight (ctx.chain)) small)))))))))

  check_work_iff :
      ctx.skip_pow ≡ false → (check_work ctx prev header ≡ ok tt) ↔ HasWork ctx prev header
  unfolding check_work validate_pow_only
  check_work_iff e = rw e (
      through (in_turn _ _) (
        parts
          (through (in_turn _ _) (
            parts
              (guard _ _
                (refuse_bits (is_primary (ctx.chain) (header.pow)) (is_secondary (header.pow))))
              (guard _ _ (refuse_not (ctx.pow_verifier header)))))
          (through (in_turn _ _) (
            parts (guard _ _ (refuse_le (total_difficulty header) (total_difficulty prev)))
              (guard _ _ (refuse_lt _ _))))))

  check_next_iff :
      (info : HeaderDifficultyInfo)
      → (check_next ctx prev header info ≡ ok tt) ↔ IsAsked ctx prev header info
  unfolding check_next
  check_next_iff info = through (in_turn _ _) (
      parts (guard _ _ (refuse_ne (target_difficulty ctx prev header) (info.difficulty))) (
        guard _ _ (
          refuse_scaling (header.version) (header.pow.secondary_scaling) (info.secondary_scaling))))

found :
    (header prev : BlockHeader) (ctx : BlockContext)
    → (prev_header_store ctx header ≡ ok prev)
      ↔ (get_previous_header (ctx.store) header ≡ some prev)
unfolding prev_header_store
found header prev ctx = by_read (get_previous_header (ctx.store) header)
  where
    by_read :
        (o : Option BlockHeader)
        → (Path
            (Result ChainError BlockHeader)
            (elim o [ none ↦ err store_err | some b ↦ ok b ])
            (ok prev))
          ↔ (o ≡ some prev)
    by_read none = (λ h. cc, λ h. cc)
    by_read (some b) = (λ h. cc, λ h. cc)

-- The work of a header and the difficulty that the headers before it ask for.
abbrev pub Works : BlockContext → BlockHeader → BlockHeader → Type 0
Works ctx prev header =
    HasWork ctx prev header
    × ((info : HeaderDifficultyInfo) × (next_header_info ctx prev header ≡ some info)
        × IsAsked ctx prev header info)

module _ (ctx : BlockContext) (prev header : BlockHeader) where
  check_difficulty_iff :
      ctx.skip_pow ≡ false
      → (check_difficulty ctx prev header ≡ some (ok tt)) ↔ Works ctx prev header
  unfolding check_difficulty
  check_difficulty_iff e = (
    λ h.
        let (u, work, rest) = (after_ok (check_work ctx prev header) _).0 h in
        let (info, asked, checked) =
          (mapped (next_header_info ctx prev header) (check_next ctx prev header)).0 rest in
        (
          (check_work_iff ctx prev header e).0 work,
          (info, asked, (check_next_iff ctx prev header info).0 checked),
        ),
    λ (work, (info, asked, checked)). (after_ok (check_work ctx prev header) _).1 (
      tt,
      (check_work_iff ctx prev header e).1 work,
      (mapped (next_header_info ctx prev header) (check_next ctx prev header)).1
          (info, asked, (check_next_iff ctx prev header info).1 checked),
    ),
  )

  validate_after_iff :
      (validate_after ctx prev header ≡ some (ok tt))
      ↔ (Follows ctx prev header × ((ctx.skip_pow ≡ true) ⊎ Works ctx prev header))
  unfolding validate_after
  validate_after_iff =
      let rest = unless (ctx.skip_pow) (check_difficulty ctx prev header) (check_difficulty_iff) in
      (
        λ h.
            let (u, numbers, more) = (after_ok (check_numbers ctx prev header) _).0 h in
            ((check_numbers_iff ctx prev header).0 numbers, rest.0 more),
        λ (follows, more).
            (after_ok (check_numbers ctx prev header) _).1
              (tt, (check_numbers_iff ctx prev header).1 follows, rest.1 more),
      )

-- validate_header accepts exactly the headers that the caller's rules allow, whose previous header is in the
-- store, and that follow it: the next height, the version of that height, a later time, at least one more
-- output and one more kernel and no more of both than a block's weight allows. Unless the proof of work is
-- skipped, the graph must also be a primary or a secondary one that the verifier accepts, the total
-- difficulty must rise, by no more than the proof reaches, and by exactly what next_difficulty asks for; the
-- scaling must be the one asked for before version 5.
pub validate_header_iff :
    (ctx : BlockContext) (header : BlockHeader)
    → (validate_header ctx header ≡ some (ok tt)) ↔ (
        (ctx.header_allowed header ≡ ok tt)
        × ((prev : BlockHeader) × (get_previous_header (ctx.store) header ≡ some prev)
            × (Follows ctx prev header × ((ctx.skip_pow ≡ true) ⊎ Works ctx prev header))))
unfolding validate_header
validate_header_iff ctx header = (
  λ h.
      let (prev, read, rest) =
        (after_ok (ctx.header_allowed header >> prev_header_store ctx header) _).0 h in
      let (allowed, there) =
        (then_ok (ctx.header_allowed header) (prev_header_store ctx header) prev).0 read in
      (
        allowed,
        (prev, (found header prev ctx).0 there, (validate_after_iff ctx prev header).0 rest),
      ),
  λ (allowed, (prev, there, rest)).
      (after_ok (ctx.header_allowed header >> prev_header_store ctx header) _).1 (
        prev,
        (then_ok (ctx.header_allowed header) (prev_header_store ctx header) prev).1
            (allowed, (found header prev ctx).1 there),
        (validate_after_iff ctx prev header).1 rest,
      ),
)
