-- ===== src/Transaction/Checks.antt =====
-- core/src/core/transaction.rs: what the checks of a body accept.
use grin.Prelude.{
  ℕ, ◌<◌, ◌≡◌, ◌↔◌, inl, inr, refl, arith, List, [], ◌∷◌, ◌++◌, length, All, Bool, true, false, ltb,
  ◌==◌, if◌then◌else◌, ==_iff, ltb→lt, Bool-cases, Result, ok, err,
}
use grin.Prelude.Try.{◌>>◌}
use grin.Prelude.Sorting.{
  sort, dedup, any_adjacent, IsDistinct, any_adjacent-sort, length-dedup_iff,
}
use grin.Ser.Types as Ser
use grin.Transaction.Errors.{invalid_nrd_relative_height, cut_through}
use grin.Transaction.Types.{TransactionBody, Hashes, inputs_committed, outputs_committed}
use grin.Transaction.Body.{
  nrd_excess, verify_no_nrd_duplicates, verify_sorted_and_unique, to_error,
  inputs_outputs_committed, verify_cut_through,
}

-- Tests that give an error.
abbrev pub Outcome : Type 0 → Type 0
Outcome E = Result E (Unit {0})

module _ {E : Type 0} where
  pub refused_iff :
      (b : Bool) (e : E) → Path (Outcome E) (if b then err e else ok tt) (ok tt) ↔ (b ≡ false)
  refused_iff true e = (λ h. cc, λ h. cc)
  refused_iff false e = (λ h. refl, λ h. refl)

  pub accepted_iff :
      (b : Bool) (e : E) → Path (Outcome E) (if b then ok tt else err e) (ok tt) ↔ (b ≡ true)
  accepted_iff true e = (λ h. refl, λ h. refl)
  accepted_iff false e = (λ h. cc, λ h. cc)

  pub in_turn : (m k : Outcome E) → ((m >> k) ≡ ok tt) ↔ ((m ≡ ok tt) × (k ≡ ok tt))
  in_turn (ok u) k = (λ h. (refl, h), λ h. h.1)
  in_turn (err e) k = (λ h. cc, λ h. cc)

module _ {A B C : Type 0} where
  pub through : (A ↔ B) → (B ↔ C) → A ↔ C
  through f g = (λ a. g.0 (f.0 a), λ c. f.1 (g.1 c))

-- The NRD check, where it is made, accepts exactly the bodies whose NRD kernels have distinct
-- excesses.
pub verify_no_nrd_duplicates_iff :
    (body : TransactionBody)
    → (verify_no_nrd_duplicates true body ≡ ok tt) ↔ IsDistinct (nrd_excess (body.kernels))
unfolding verify_no_nrd_duplicates
verify_no_nrd_duplicates_iff body =
    let sorted = sort (λ (n : ℕ). n) (nrd_excess (body.kernels)) in
    through (accepted_iff (length sorted == length (dedup sorted)) invalid_nrd_relative_height) (
      through (==_iff (length sorted) (length (dedup sorted)))
        (through (length-dedup_iff sorted) (any_adjacent-sort (nrd_excess (body.kernels)))))

-- The cut-through check accepts exactly the bodies in which all commitments of inputs and outputs
-- are distinct: no output is spent, and none stands twice.
pub verify_cut_through_iff :
    (hashes : Hashes) (body : TransactionBody)
    → (verify_cut_through hashes body ≡ ok tt)
      ↔ IsDistinct (inputs_committed hashes body ++ outputs_committed body)
unfolding verify_cut_through inputs_outputs_committed
verify_cut_through_iff hashes body =
    let commits = inputs_committed hashes body ++ outputs_committed body in
    through (refused_iff (any_adjacent (sort (λ (n : ℕ). n) commits)) cut_through)
      (any_adjacent-sort commits)

-- Each value is below all that follow.
unfoldable pub IsAscending : List ℕ → Type 0
IsAscending [] = Unit {0}
IsAscending (x ∷ xs) = All (λ y. x < y) xs × IsAscending xs

below-All : (x y : ℕ) (ys : List ℕ) → x < y → All (λ z. y < z) ys → All (λ z. x < z) ys
below-All x y [] lt h = tt
below-All x y (z ∷ zs) lt h = (let yz = h.0 in omega arith, below-All x y zs lt (h.1))

-- Neighbours are enough.
pub verify_sorted_and_unique_iff :
    (xs : List ℕ) → (verify_sorted_and_unique xs ≡ ok tt) ↔ IsAscending xs
unfolding verify_sorted_and_unique IsAscending
verify_sorted_and_unique_iff [] = (λ e. tt, λ h. refl)
verify_sorted_and_unique_iff (x ∷ []) = (λ e. (tt, tt), λ h. refl)
verify_sorted_and_unique_iff (x ∷ y ∷ ys) =
    let (there, back) = verify_sorted_and_unique_iff (y ∷ ys) in
    elim (Bool-cases (ltb y x)) [
      | inl gt ↦ rw gt (λ p. cc, λ h. let lt = h.0.0 in absurd (ground (arith, ltb→lt y x gt)))
      | inr ge ↦ elim (Bool-cases (x == y)) [
        | inl e ↦
            rw (ge, e) (λ p. cc, λ h. let lt = h.0.0 in absurd (omega (arith, (==_iff x y).0 e)))
        | inr n ↦
            let lt : x < y = ground arith in
            rw (ge, n) (λ p. ((lt, below-All x y ys lt ((there p).0)), there p), λ h. back (h.1))
      ]
    ]

pub to_error_iff : (r : Result Ser.Error (Unit {0})) → (to_error r ≡ ok tt) ↔ (r ≡ ok tt)
unfolding to_error
to_error_iff (ok u) = (λ h. refl, λ h. refl)
to_error_iff (err e) = (λ h. cc, λ h. cc)
