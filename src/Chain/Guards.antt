-- ===== src/Chain/Guards.antt =====
-- chain/src/pipe.rs: when a chain of checks ends without an error.
use grin.Prelude.{
  ℕ, ◌+◌, ◌-◌, ◌*◌, ◌≤◌, ◌<◌, ◌≡◌, ◌⊎◌, ◌↔◌, refl, ap, ◌∙◌, inl, inr, arith, Option, none, some,
  Bool, true, false, not, ◌&&◌, ◌||◌, Bool-cases, ltb, leb, ◌==◌, if◌then◌else◌, Result, ok, err,
}
use mathlib.Core.Option
use grin.Prelude.Try.{◌>>◌}
use grin.Global.History.{HeaderDifficultyInfo}
use grin.Transaction.Body.{weight_by_iok}
use grin.Transaction.Checks.{refused_iff, through}
use grin.Chain.Pipe.{ChainError, Checked}

module _ {E : Type 0} where
  pub guard :
      {B : Type 0} (b : Bool) (e : E)
      → ((b ≡ false) ↔ B)
      → (Path (Result E (Unit {0})) (if b then err e else ok tt) (ok tt)) ↔ B
  guard b e f = through (refused_iff b e) f

pub refuse_ne : (a b : ℕ) → (not (a == b) ≡ false) ↔ (a ≡ b)
refuse_ne a b = (λ e. ground arith, λ e. ground arith)

pub refuse_le : (a b : ℕ) → (leb a b ≡ false) ↔ (b < a)
refuse_le a b = (λ e. ground arith, λ e. ground arith)

pub refuse_lt : (a b : ℕ) → (ltb a b ≡ false) ↔ (b ≤ a)
refuse_lt a b = (λ e. ground arith, λ e. ground arith)

pub refuse_none : (o o' k k' : ℕ) → ((o - o' == 0 || k - k' == 0) ≡ false) ↔ ((o' < o) × (k' < k))
refuse_none o o' k k' = (λ e. ground arith, λ e. ground arith)

pub refuse_heavy :
    (o k m : ℕ) → m ≤ 40000 → (ltb m (weight_by_iok 0 o k) ≡ false) ↔ (21 * o + 3 * k ≤ m)
unfolding weight_by_iok
refuse_heavy o k m small = (λ e. ground arith, λ e. ground arith)

pub refuse_scaling : (v s t : ℕ) → ((ltb v 5 && not (s == t)) ≡ false) ↔ (v < 5 → s ≡ t)
refuse_scaling v s t = (λ e lt. ground arith, by_case (Bool-cases (ltb v 5)))
  where
    by_case :
        (ltb v 5 ≡ true) ⊎ (ltb v 5 ≡ false) → (v < 5 → s ≡ t) → (ltb v 5 && not (s == t)) ≡ false
    by_case (inl early) f = let same = f (ground arith) in ground arith
    by_case (inr late) f = rw late refl

pub refuse_bits : (a b : Bool) → ((not a && not b) ≡ false) ↔ ((a ≡ true) ⊎ (b ≡ true))
refuse_bits true b = (λ e. inl refl, λ e. refl)
refuse_bits false true = (λ e. inr refl, λ e. refl)
refuse_bits false false = (λ e. cc, bits)
  where
    bits : (false ≡ true) ⊎ (false ≡ true) → not false && not false ≡ false
    bits (inl e) = cc
    bits (inr e) = cc

pub refuse_not : (a : Bool) → (not a ≡ false) ↔ (a ≡ true)
refuse_not true = (λ e. refl, λ e. refl)
refuse_not false = (λ e. cc, λ e. cc)

-- A check that may panic, after one that may fail.
pub after_ok :
    {A : Type 0} (r : Result ChainError A) (k : A → Option Checked)
    → (Path (Option Checked) (elim r [ err e ↦ some (err e) | ok a ↦ k a ]) (some (ok tt)))
      ↔ ((a : A) × (r ≡ ok a) × (k a ≡ some (ok tt)))
after_ok (err e) k = (λ h. cc, λ (a, h, t). cc)
after_ok (ok b) k = (λ h. (b, refl, h), λ (a, h, t). let same : b ≡ a = cc in ap k same ∙ t)

pub mapped :
    (o : Option HeaderDifficultyInfo) (f : HeaderDifficultyInfo → Checked)
    → (Option.map f o ≡ some (ok tt))
      ↔ ((info : HeaderDifficultyInfo) × (o ≡ some info) × (f info ≡ ok tt))
mapped none f = (λ h. cc, λ (a, h, t). cc)
mapped (some b) f = (
  λ h. (b, refl, cc),
  λ (a, h, t). let same : b ≡ a = cc in ap (λ x. some (f x)) same ∙ ap (λ x. some x) t,
)

pub then_ok :
    {A : Type 0} (m : Checked) (k : Result ChainError A) (a : A)
    → (Path (Result ChainError A) (m >> k) (ok a)) ↔ ((m ≡ ok tt) × (k ≡ ok a))
then_ok (ok u) k a = (λ h. (refl, h), λ h. h.1)
then_ok (err e) k a = (λ h. cc, λ h. cc)

pub unless :
    {W : Type 0} (b : Bool) (k : Option Checked)
    → (b ≡ false → (k ≡ some (ok tt)) ↔ W)
    → (Path (Option Checked) (if b then some (ok tt) else k) (some (ok tt))) ↔ ((b ≡ true) ⊎ W)
unless true k f = (λ h. inl refl, λ h. refl)
unless {W = W} false k f = (λ h. inr ((f refl).0 h), met)
  where
    met : (false ≡ true) ⊎ W → k ≡ some (ok tt)
    met (inl e) = cc
    met (inr w) = (f refl).1 w
