-- ===== src/Prelude/Maps.antt =====
-- HashMap with numbers as keys, as the list of its entries. The order of the entries is not the one
-- of the hash map, and nothing that is modelled depends on it.
use Prim.Native.Nat.{ℕ}
use mathlib.Core.Path.{◌≡◌, refl}
use mathlib.Core.Logic.{inl, inr}
use mathlib.Core.List.{List, [], ◌∷◌, reverse}
use mathlib.Core.List.{reverse-cons}
use mathlib.Core.Option.{Option, none, some}
use mathlib.Core.Bool.{Bool, false}
use native.Mathlib.Omega.{arith}
use grin.Prelude.Tests.{◌==◌, if◌then◌else◌, Bool-cases}
use grin.Prelude.Lists.{All, any}
use grin.Prelude.Sorting.{same}
use grin.Prelude.Counting.{count, count-append}

abbrev pub elem : ℕ → List ℕ → Bool
elem k xs = any (λ x. x == k) xs

module _ {A : Type 0} where
  unfoldable pub find : ℕ → List (ℕ × A) → Option A
  find k [] = none
  find k ((j, x) ∷ m) = if j == k then some x else find k m

  unfoldable pub remove : ℕ → List (ℕ × A) → List (ℕ × A)
  remove k [] = []
  remove k ((j, x) ∷ m) = let rest = remove k m in if j == k then rest else (j, x) ∷ rest

  abbrev pub put : ℕ → A → List (ℕ × A) → List (ℕ × A)
  put k x m = (k, x) ∷ remove k m

  unfoldable pub retain : (ℕ → A → Bool) → List (ℕ × A) → List (ℕ × A)
  retain p [] = []
  retain p ((j, x) ∷ m) = let rest = retain p m in if p j x then (j, x) ∷ rest else rest

  unfoldable pub keys : List (ℕ × A) → List ℕ
  keys [] = []
  keys ((j, x) ∷ m) = j ∷ keys m

  pub find-remove_other :
      (k j : ℕ) (m : List (ℕ × A)) → (j == k) ≡ false → find k (remove j m) ≡ find k m
  unfolding find remove
  find-remove_other k j [] h = refl
  find-remove_other k j ((i, x) ∷ m) h = elim (Bool-cases (i == j)) [
    | inl gone ↦
        let other : (i == k) ≡ false = ground arith in rw (gone, other) (find-remove_other k j m h)
    | inr kept ↦ rw (kept, find-remove_other k j m h) refl
  ]

  pub find-remove_same : (k : ℕ) (m : List (ℕ × A)) → find k (remove k m) ≡ none
  unfolding find remove
  find-remove_same k [] = refl
  find-remove_same k ((i, x) ∷ m) = elim (Bool-cases (i == k)) [
    | inl gone ↦ rw gone (find-remove_same k m)
    | inr kept ↦ rw kept (rw kept (find-remove_same k m))
  ]

  -- What holds of all entries holds of those that are left.
  pub All-remove {κ} :
      (P : ℕ × A → Type κ) (k : ℕ) (m : List (ℕ × A))
      → All P m
      → All (λ e. P e × ((e.0 == k) ≡ false)) (remove k m)
  unfolding remove
  All-remove P k [] h = tt
  All-remove P k ((i, x) ∷ m) h = elim (Bool-cases (i == k)) [
    | inl gone ↦ rw gone (All-remove P k m (h.1))
    | inr kept ↦ rw kept ((h.0, kept), All-remove P k m (h.1))
  ]

  pub All-retain {κ} :
      (P : ℕ × A → Type κ) (p : ℕ → A → Bool) (m : List (ℕ × A)) → All P m → All P (retain p m)
  unfolding retain
  All-retain P p [] h = tt
  All-retain P p ((i, x) ∷ m) h = elim (Bool-cases (p i x)) [
    | inl kept ↦ rw kept (h.0, All-retain P p m (h.1))
    | inr gone ↦ rw gone (All-retain P p m (h.1))
  ]

  pub All-imply {κ μ} :
      (P : ℕ × A → Type κ) (Q : ℕ × A → Type μ) (m : List (ℕ × A))
      → ((e : ℕ × A) → P e → Q e)
      → All P m
      → All Q m
  All-imply P Q [] f h = tt
  All-imply P Q (e ∷ m) f h = (f e (h.0), All-imply P Q m f (h.1))

pub count-reverse : (v : ℕ) (xs : List ℕ) → count same v (reverse xs) ≡ count same v xs
count-reverse v [] = refl
count-reverse v (x ∷ xs) =
    rw (reverse-cons x xs)
      (omega (arith, count-append same v (reverse xs) (x ∷ []), count-reverse v xs))
