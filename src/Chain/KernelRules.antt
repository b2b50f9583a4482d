-- ===== src/Chain/KernelRules.antt =====
-- chain/src/txhashset/txhashset.rs: the relative height of NRD kernels, by the kernel index.
use grin.Prelude.{
  ℕ, ◌-◌, ◌≤◌, ◌≡◌, ◌⊎◌, inl, inr, refl, arith, List, [], ◌∷◌, Bool, true, false, ltb,
  if◌then◌else◌, Bool-cases, Option, none, some, Result, ok, err,
}
use grin.Transaction.Kernel.{KernelFeatures, NrdRelativeHeight}
use grin.Transaction.Fee.{FeeFields}
use grin.Transaction.Types.{TxKernel}
use grin.Chain.ListIndex.{CommitPos, Batch, IndexError, peek_pos, push_pos}
use grin.Chain.Represents.{Stores, Agrees}
use grin.Chain.Pushing.{newest, IsNewer, peek_pos-Stores, push_pos-Stores}

pub data RuleError : Type 0 where
  nrd_relative_height : RuleError
  store_err : IndexError → RuleError

abbrev or_store_err {ℓ κ} :
    {A : Type ℓ} {B : Type κ} → Result IndexError A → (A → Result RuleError B) → Result RuleError B
or_store_err (ok a) f = f a
or_store_err (err e) f = err (store_err e)

-- `pos.height.saturating_sub(prev.height) < relative_height`.
unfoldable pub is_too_recent : CommitPos → NrdRelativeHeight → Option CommitPos → Bool
is_too_recent pos relative_height none = false
is_too_recent pos relative_height (some prev) =
    ltb (pos.height - prev.height) (relative_height.height)

unfoldable pub apply_nrd : ℕ → CommitPos → NrdRelativeHeight → Batch → Result RuleError Batch
apply_nrd excess pos relative_height batch = or_store_err (peek_pos excess batch) (λ prev.
    if is_too_recent pos relative_height prev
    then err nrd_relative_height
    else or_store_err (push_pos excess pos batch) (λ r. ok (r.1)))

unfoldable pub apply_features : ℕ → CommitPos → KernelFeatures → Batch → Result RuleError Batch
apply_features excess pos (KernelFeatures.no_recent_duplicate fee relative_height) batch =
    apply_nrd excess pos relative_height batch
apply_features excess pos (KernelFeatures.plain fee) batch = ok batch
apply_features excess pos KernelFeatures.coinbase batch = ok batch
apply_features excess pos (KernelFeatures.height_locked fee lock_height) batch = ok batch

-- The flag is is_nrd_enabled.
unfoldable pub apply_kernel_rules : Bool → TxKernel → CommitPos → Batch → Result RuleError Batch
apply_kernel_rules true kernel pos batch =
    apply_features (kernel.excess) pos (kernel.features) batch
apply_kernel_rules false kernel pos batch = ok batch

-- The newest kernel with this excess is at least so many blocks older, where there is one.
abbrev pub IsSpaced : CommitPos → ℕ → List CommitPos → Type 0
IsSpaced pos distance [] = Unit {0}
IsSpaced pos distance (p ∷ ps) = distance ≤ pos.height - p.height

IsSpaced-cases :
    (pos : CommitPos) (h : NrdRelativeHeight) (xs : List CommitPos)
    → ((is_too_recent pos h (newest xs) ≡ false) × IsSpaced pos (h.height) xs)
      ⊎ ((is_too_recent pos h (newest xs) ≡ true) × ¬ IsSpaced pos (h.height) xs)
unfolding is_too_recent
IsSpaced-cases pos h [] = inl (refl, tt)
IsSpaced-cases pos h (p ∷ ps) = elim (Bool-cases (ltb (pos.height - p.height) (h.height))) [
  | inl near ↦ inr (near, λ far. ground arith)
  | inr far ↦ inl (far, ground arith)
]

-- With NRD kernels enabled, an NRD kernel at a position above those recorded for its excess is
-- either at least its relative height above the newest of them, and recorded in front of them with
-- nothing changed for other excesses, or it is not and the rule fails.
pub apply_kernel_rules_nrd :
    (kernel : TxKernel) (pos : CommitPos) (batch : Batch) (xs : List CommitPos)
    → Stores batch (kernel.excess) xs
    → IsNewer pos xs
    → (fee : FeeFields) (h : NrdRelativeHeight)
    → kernel.features ≡ KernelFeatures.no_recent_duplicate fee h
    → (IsSpaced pos (h.height) xs
        × ((after : Batch) × (apply_kernel_rules true kernel pos batch ≡ ok after)
            × Stores after (kernel.excess) (pos ∷ xs)
            × Agrees (kernel.excess) batch after))
      ⊎ ((¬ IsSpaced pos (h.height) xs)
          × (apply_kernel_rules true kernel pos batch ≡ err nrd_relative_height))
unfolding apply_kernel_rules apply_features apply_nrd
apply_kernel_rules_nrd kernel pos batch xs s newer fee h is_nrd = elim (IsSpaced-cases pos h xs) [
  | inl (passes, far) ↦
      let (after, pushed, s', a) = push_pos-Stores (kernel.excess) pos batch xs s newer in
      inl (
        far,
        (
          after,
          rw (is_nrd, peek_pos-Stores (kernel.excess) batch xs s, passes, pushed) refl,
          s',
          a,
        ),
      )
  | inr (fails, near) ↦
      inr (near, rw (is_nrd, peek_pos-Stores (kernel.excess) batch xs s, fails) refl)
]
