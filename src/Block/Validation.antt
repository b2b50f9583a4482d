-- ===== src/Block/Validation.antt =====
-- core/src/core/block.rs: the blocks that validate accepts.
use grin.Prelude.{
  ℕ, ◌≤◌, ◌≡◌, ◌⊎◌, ◌↔◌, refl, ap, ◌∙◌, inl, inr, arith, Option, none, some, List, [], ◌∷◌, Bool,
  true, false, not, any, All, ltb, ◌==◌, if◌then◌else◌, ==_iff, Result, ok, err,
}
use grin.Prelude.Try.{◌>>=◌}
use grin.Global.Chain.{ChainTypes}
use grin.Consensus.Params.{reward}
use grin.Transaction.Errors as Errors
use grin.Transaction.Kernel.{
  KernelFeatures, plain, coinbase, height_locked, no_recent_duplicate, is_nrd,
}
use grin.Transaction.Types.{Hashes, TxKernel}
use grin.Transaction.Body.{as_block}
use grin.Transaction.Checks.{refused_iff, accepted_iff, in_turn, through}
use grin.Transaction.Validation.{parts}
use grin.Transaction.Sums.{Secp, CommittedError, or_err, verify_kernel_sums}
use grin.Transaction.Aggregate.{validate_body}
use grin.Block.Header.{
  Block, BlockError, coinbase_sum_mismatch, secp, header_overage, kernel_lock_height,
  nrd_kernel_not_enabled, nrd_kernel_pre_hf3,
}
use grin.Block.Checks.{
  from_transaction, from_committed, check_lock_height, verify_kernel_lock_heights,
  verify_nrd_kernels_for_header_version, coinbase_outputs, coinbase_kernels, total_fees,
  verify_coinbase, block_kernel_offset, validate,
}

-- The lowest block that a kernel may stand in.
abbrev pub lock_of : KernelFeatures → ℕ
lock_of (height_locked fee lock_height) = lock_height
lock_of _ = 0

lock_iff :
    (height : ℕ) (f : KernelFeatures) → (check_lock_height height f ≡ ok tt) ↔ (lock_of f ≤ height)
lock_iff height (plain fee) = (λ e. omega arith, λ e. refl)
lock_iff height coinbase = (λ e. omega arith, λ e. refl)
lock_iff height (no_recent_duplicate fee relative) = (λ e. omega arith, λ e. refl)
lock_iff height (height_locked fee h) =
    through (refused_iff (ltb height h) (kernel_lock_height h))
      (λ e. ground arith, λ e. ground arith)

locks_iff :
    (height : ℕ) (ks : List TxKernel)
    → (verify_kernel_lock_heights height ks ≡ ok tt)
      ↔ All (λ (k : TxKernel). lock_of (k.features) ≤ height) ks
unfolding verify_kernel_lock_heights
locks_iff height [] = (λ e. tt, λ e. refl)
locks_iff height (k ∷ ks) =
    through (in_turn (check_lock_height height (k.features)) (verify_kernel_lock_heights height ks))
      (parts (lock_iff height (k.features)) (locks_iff height ks))

-- NRD kernels need the flag and a version of at least 4.
abbrev pub IsNrdOpen : Bool → Block → Type 0
IsNrdOpen nrd_enabled b =
    (any (λ (k : TxKernel). is_nrd (k.features)) (b.body.kernels) ≡ false)
    ⊎ ((nrd_enabled ≡ true) × (4 ≤ b.header.version))

three :
    (a n l : Bool) (x y : BlockError)
    → (Path
        (Result BlockError (Unit {0}))
        (if a then (if not n then err x else (if l then err y else ok tt)) else ok tt)
        (ok tt))
      ↔ ((a ≡ false) ⊎ ((n ≡ true) × (l ≡ false)))
three false n l x y = (λ h. inl refl, λ h. refl)
three true n l x y = (inner n l, outer n l)
  where
    inner :
        (n l : Bool)
        → Path
            (Result BlockError (Unit {0}))
            (if not n then err x else (if l then err y else ok tt))
            (ok tt)
        → (true ≡ false) ⊎ ((n ≡ true) × (l ≡ false))
    inner false l h = cc
    inner true true h = cc
    inner true false h = inr (refl, refl)

    outer :
        (n l : Bool)
        → (true ≡ false) ⊎ ((n ≡ true) × (l ≡ false))
        → Path
            (Result BlockError (Unit {0}))
            (if not n then err x else (if l then err y else ok tt))
            (ok tt)
    outer n l (inl e) = cc
    outer n l (inr (e, e')) = rw (e, e') refl

nrd_iff :
    (nrd_enabled : Bool) (b : Block)
    → (verify_nrd_kernels_for_header_version nrd_enabled b ≡ ok tt) ↔ IsNrdOpen nrd_enabled b
unfolding verify_nrd_kernels_for_header_version
nrd_iff nrd_enabled b =
    let asked = any (λ (k : TxKernel). is_nrd (k.features)) (b.body.kernels) in
    let early = ltb (b.header.version) 4 in
    let f = three asked nrd_enabled early nrd_kernel_not_enabled nrd_kernel_pre_hf3 in
    (λ h. version_of (f.0 h), λ h. f.1 (test_of h))
  where
    version_of :
        (any (λ (k : TxKernel). is_nrd (k.features)) (b.body.kernels) ≡ false)
          ⊎ ((nrd_enabled ≡ true) × (ltb (b.header.version) 4 ≡ false))
        → IsNrdOpen nrd_enabled b
    version_of (inl e) = inl e
    version_of (inr (e, late)) = inr (e, ground arith)

    test_of :
        IsNrdOpen nrd_enabled b
        → (any (λ (k : TxKernel). is_nrd (k.features)) (b.body.kernels) ≡ false)
          ⊎ ((nrd_enabled ≡ true) × (ltb (b.header.version) 4 ≡ false))
    test_of (inl e) = inl e
    test_of (inr (e, late)) = inr (e, ground arith)

module _ {E A : Type 0} where
  bound_iff :
      (m : Result E A) (k : A → Result E (Unit {0}))
      → ((m >>= k) ≡ ok tt) ↔ ((a : A) × (m ≡ ok a) × (k a ≡ ok tt))
  bound_iff (ok a) k = (λ h. (a, refl, h), λ (a', e, h). let same : a ≡ a' = cc in ap k same ∙ h)
  bound_iff (err e) k = (λ h. cc, λ (a', e', h). cc)

  read_iff : (o : Option A) (e : E) (a : A) → (Path (Result E A) (or_err o e) (ok a)) ↔ (o ≡ some a)
  read_iff none e a = (λ h. cc, λ h. cc)
  read_iff (some b) e a = (λ h. cc, λ h. cc)

same_kind :
    {A : Type 0} (r : Result Errors.Error A) (a : A)
    → (Path (Result BlockError A) (from_transaction r) (ok a)) ↔ (r ≡ ok a)
same_kind (ok b) a = (λ h. cc, λ h. cc)
same_kind (err e) a = (λ h. cc, λ h. cc)

of_committed :
    {A : Type 0} (r : Result CommittedError A) (a : A)
    → (Path (Result BlockError A) (from_committed r) (ok a)) ↔ (r ≡ ok a)
of_committed (ok b) a = (λ h. cc, λ h. cc)
of_committed (err e) a = (λ h. cc, λ h. cc)

-- The coinbase outputs less the reward with the fees are the coinbase kernels.
abbrev pub IsRewarded : Secp → Block → Type 0
IsRewarded lib b =
    (sum : ℕ) × (lib.commit_sum (coinbase_outputs (b.body.outputs))
        (lib.commit_value (reward (total_fees b)) ∷ [])
      ≡ some sum)
    × (lib.commit_sum (coinbase_kernels (b.body.kernels)) [] ≡ some sum)

coinbase_iff : (lib : Secp) (b : Block) → (verify_coinbase lib b ≡ ok tt) ↔ IsRewarded lib b
unfolding verify_coinbase
coinbase_iff lib b =
    let outs =
      lib.commit_sum (coinbase_outputs (b.body.outputs))
        (lib.commit_value (reward (total_fees b)) ∷ []) in
    let kerns = lib.commit_sum (coinbase_kernels (b.body.kernels)) [] in
    (
      λ h.
          let (s, read, rest) = (bound_iff (or_err outs secp) _).0 h in
          let (t, read', equal) = (bound_iff (or_err kerns secp) _).0 rest in
          let same : t ≡ s =
            (==_iff t s).0 ((accepted_iff (t == s) coinbase_sum_mismatch).0 equal) in
          (
            s,
            (read_iff outs secp s).0 read,
            (read_iff kerns secp t).0 read' ∙ ap (λ (x : ℕ). some x) same,
          ),
      λ (s, read, read'). (bound_iff (or_err outs secp) _).1 (
        s,
        (read_iff outs secp s).1 read,
        (bound_iff (or_err kerns secp) _).1 (
          s,
          (read_iff kerns secp s).1 read',
          (accepted_iff (s == s) coinbase_sum_mismatch).1 ((==_iff s s).1 refl),
        ),
      ),
    )

-- The sums of the block against its own offset, which is that of its header less the one before.
abbrev pub IsBalancedBlock : Secp → Hashes → ℕ → Block → Type 0
IsBalancedBlock lib hashes prev_kernel_offset b =
    (offset : ℕ) × (block_kernel_offset lib prev_kernel_offset b ≡ ok offset)
    × ((sums : ℕ × ℕ) × (verify_kernel_sums lib hashes (b.body) header_overage offset ≡ ok sums))

sums_iff :
    (lib : Secp) (hashes : Hashes) (prev_kernel_offset : ℕ) (b : Block)
    → (Path
        (Result BlockError (Unit {0}))
        (block_kernel_offset lib prev_kernel_offset b >>= λ offset.
          from_committed (verify_kernel_sums lib hashes (b.body) header_overage offset) >>= λ sums.
          ok tt)
        (ok tt))
      ↔ IsBalancedBlock lib hashes prev_kernel_offset b
sums_iff lib hashes prev_kernel_offset b = (
  λ h.
      let (offset, e, rest) = (bound_iff (block_kernel_offset lib prev_kernel_offset b) _).0 h in
      let (sums, found, done) =
        (bound_iff (from_committed (verify_kernel_sums lib hashes (b.body) header_overage offset))
            _).0
          rest in
      (
        offset,
        e,
        (
          sums,
          (of_committed (verify_kernel_sums lib hashes (b.body) header_overage offset) sums).0
              found,
        ),
      ),
  λ (offset, e, (sums, found)). (bound_iff (block_kernel_offset lib prev_kernel_offset b) _).1 (
    offset,
    e,
    (bound_iff (from_committed (verify_kernel_sums lib hashes (b.body) header_overage offset)) _).1
        (
          sums,
          (of_committed (verify_kernel_sums lib hashes (b.body) header_overage offset) sums).1
              found,
          refl,
        ),
  ),
)

-- The full validation of a block accepts exactly the blocks whose body passes that of a body as a block, of whose
-- kernels none is locked beyond its height, that have NRD kernels with the flag and from version 4 on only, whose
-- coinbase outputs less the reward and the fees are the coinbase kernels, and whose sums hold with the kernel
-- offset since the block before.
pub validate_iff :
    (lib : Secp) (chain : ChainTypes) (nrd_enabled : Bool) (hashes : Hashes)
    (prev_kernel_offset : ℕ) (b : Block)
    → (validate lib chain nrd_enabled hashes prev_kernel_offset b ≡ ok tt) ↔ (
        (validate_body lib chain nrd_enabled hashes as_block (b.body) ≡ ok tt)
        × (All (λ (k : TxKernel). lock_of (k.features) ≤ b.header.height) (b.body.kernels)
            × (IsNrdOpen nrd_enabled b
                × (IsRewarded lib b × IsBalancedBlock lib hashes prev_kernel_offset b))))
unfolding validate
validate_iff lib chain nrd_enabled hashes prev_kernel_offset b =
    let body = validate_body lib chain nrd_enabled hashes as_block (b.body) in
    through (in_turn _ _) (
      parts (same_kind body tt) (
        through (in_turn _ _) (
          parts (locks_iff (b.header.height) (b.body.kernels)) (
            through (in_turn _ _) (
              parts (nrd_iff nrd_enabled b) (
                through (in_turn _ _)
                  (parts (coinbase_iff lib b) (sums_iff lib hashes prev_kernel_offset b))))))))
