-- ===== src/Chain/HeaderChain.antt =====
-- chain/src/pipe.rs: headers that validate_header accepts one after another.
use grin.Prelude.{
  ℕ, suc, ◌+◌, ◌^◌, ◌≤◌, ◌<◌, ◌≡◌, ◌⊎◌, sym, ap, ◌∙◌, inl, inr, arith, some, true, false, ok,
}
use mathlib.Core.Path.{subst}
use mathlib.Core.Option.{some-injective}
use grin.Global.History.{HeaderDifficultyInfo}
use grin.Block.Header.{BlockHeader, total_difficulty, output_mmr_count, kernel_mmr_count}
use grin.Chain.DifficultyIter.{get_previous_header}
use grin.Chain.Pipe.{BlockContext, validate_header, next_header_info}
use grin.Chain.HeaderRules.{Follows, Works, validate_header_iff}

-- `n` headers lead from one to another. Each is accepted with the one before it in the store and a u64 for
-- its total difficulty, and next_difficulty asks for `work` in all.
pub data Extends (ctx : BlockContext) (start : BlockHeader) : ℕ → ℕ → BlockHeader → Type 0 where
  start_of : Extends ctx start 0 0 start
  extend :
      (n work : ℕ) (prev header : BlockHeader) (info : HeaderDifficultyInfo)
      → Extends ctx start n work prev
      → get_previous_header (ctx.store) header ≡ some prev
      → next_header_info ctx prev header ≡ some info
      → total_difficulty header < 2 ^ 64
      → validate_header ctx header ≡ some (ok tt)
      → Extends ctx start (suc n) (work + info.difficulty) header

-- One accepted header.
accepted :
    (ctx : BlockContext) (prev header : BlockHeader) (info : HeaderDifficultyInfo)
    → ctx.skip_pow ≡ false
    → get_previous_header (ctx.store) header ≡ some prev
    → next_header_info ctx prev header ≡ some info
    → total_difficulty header < 2 ^ 64
    → validate_header ctx header ≡ some (ok tt)
    → Follows ctx prev header
      × (total_difficulty header ≡ total_difficulty prev + info.difficulty)
      × (total_difficulty prev < total_difficulty header)
accepted ctx prev header info pow read asked small valid =
    let (allowed, (prev', read', (follows, work))) = (validate_header_iff ctx header).0 valid in
    let same : prev' ≡ prev = some-injective prev' prev (sym read' ∙ read) in
    met (
      subst (λ t. Follows ctx t header × ((ctx.skip_pow ≡ true) ⊎ Works ctx t header)) same
        (follows, work))
  where
    met :
        Follows ctx prev header × ((ctx.skip_pow ≡ true) ⊎ Works ctx prev header)
        → Follows ctx prev header
          × (total_difficulty header ≡ total_difficulty prev + info.difficulty)
          × (total_difficulty prev < total_difficulty header)
    met (follows, inl skipped) = cc
    met (follows, inr ((graph, (rises, reached)), (info', asked', (exact, scaling)))) =
        let difficulty : info'.difficulty ≡ info.difficulty =
          ap (λ (t : HeaderDifficultyInfo). t.difficulty)
            (some-injective info' info (sym asked' ∙ asked)) in
        (follows, omega arith, rises)

-- Along headers that validate_header accepts one after another, with the proof of work checked, the height rises
-- by one each time, as long as it is a u64, and the total difficulty by exactly what next_difficulty asks for, at
-- least one; the time, the number of outputs and that of kernels rise by at least one each time, too.
pub Extends-numbers :
    (ctx : BlockContext) (start : BlockHeader) {n work : ℕ} {header : BlockHeader}
    → ctx.skip_pow ≡ false
    → start.height + n < 2 ^ 64
    → Extends ctx start n work header
    → (header.height ≡ start.height + n)
      × (total_difficulty header ≡ total_difficulty start + work)
      × (n ≤ work)
      × (start.timestamp + n ≤ header.timestamp)
      × (output_mmr_count start + n ≤ output_mmr_count header)
      × (kernel_mmr_count start + n ≤ kernel_mmr_count header)
Extends-numbers ctx start pow small start_of =
    (omega arith, omega arith, omega arith, omega arith, omega arith, omega arith)
Extends-numbers ctx start pow small (extend m done prev header info rest read asked bound valid) =
    let (height, total, enough, time, outputs, kernels) =
      Extends-numbers ctx start pow (omega arith) rest in
    let ((next_height, (version, (later, (more, weight)))), exact, rises) =
      accepted ctx prev header info pow read asked bound valid in
    let (new_outputs, new_kernels) = more in
    (omega arith, omega arith, omega arith, omega arith, omega arith, omega arith)
