-- ===== src/Transaction/Swaps.antt =====
-- core/src/core/transaction.rs: what the swaps of cut_through do to a slice of kept elements, cut
-- elements and the rest.
use grin.Prelude.{
  ℕ, zero, suc, ◌+◌, ◌-◌, ◌<◌, ◌≡◌, inl, inr, refl, ap, ◌∙◌, arith, List, [], ◌∷◌, ◌++◌, length,
  length-append, get_elem?, set, ltb, Option, some, none, Option-cases, true, false,
}
use mathlib.Core.List.{append_assoc, append-nil}
use grin.Prelude.Counting.{count, count-append}
use grin.Transaction.CutThrough.{swap, shift_loop}

module _ {A : Type 0} where
  pub get-middle : (xs : List A) (x : A) (r : List A) → get_elem? (xs ++ x ∷ r) (length xs) ≡ some x
  get-middle [] x r = refl
  get-middle (y ∷ ys) x r = get-middle ys x r

  set-middle : (xs : List A) (x y : A) (r : List A) → set (xs ++ x ∷ r) (length xs) y ≡ xs ++ y ∷ r
  set-middle [] x y r = refl
  set-middle (z ∷ zs) x y r = ap (λ l. z ∷ l) (set-middle zs x y r)

  swap-cons :
      (a : A) (xs ys : List A) (i j : ℕ)
      → swap xs i j ≡ some ys
      → swap (a ∷ xs) (suc i) (suc j) ≡ some (a ∷ ys)
  unfolding swap
  swap-cons a xs ys i j h = elim (Option-cases (get_elem? xs i)) [
    | inl gone ↦ let bad = rw gone at h in cc
    | inr (x, found) ↦ elim (Option-cases (get_elem? xs j)) [
      | inl gone ↦ let bad = rw (found, gone) at h in cc
      | inr (y, there) ↦ let good = rw (found, there) at h in rw (found, there) cc
    ]
  ]

  -- The first element goes behind the others.
  abbrev pub rotate : List A → List A
  rotate [] = []
  rotate (d ∷ ds) = ds ++ d ∷ []

  swap_first :
      (c : List A) (x : A) (r : List A)
      → swap (c ++ x ∷ r) 0 (length c) ≡ some (x ∷ (rotate c ++ r))
  unfolding swap
  swap_first [] x r = refl
  swap_first (d ∷ ds) x r =
      rw (get-middle ds x r, set-middle ds x d r, append_assoc ds (d ∷ []) r) refl

  -- The element behind the cut ones goes to the end of the kept ones.
  pub swap-split :
      (k c : List A) (x : A) (r : List A)
      → swap (k ++ (c ++ x ∷ r)) (length k) (length k + length c)
        ≡ some ((k ++ x ∷ []) ++ (rotate c ++ r))
  swap-split [] c x r = let e : 0 + length c ≡ length c = omega arith in rw e (swap_first c x r)
  swap-split (a ∷ k) c x r =
      let e : suc (length k) + length c ≡ suc (length k + length c) = omega arith in
      rw e (
        swap-cons a (k ++ (c ++ x ∷ r)) ((k ++ x ∷ []) ++ (rotate c ++ r)) (length k)
          (length k + length c) (swap-split k c x r))

  pub length-rotate : (c : List A) → length (rotate c) ≡ length c
  length-rotate [] = refl
  length-rotate (d ∷ ds) = omega (arith, length-append ds (d ∷ []))

  pub get-past : (xs : List A) → get_elem? xs (length xs) ≡ none
  get-past [] = refl
  get-past (x ∷ xs) = get-past xs

  module _ (key : A → ℕ) where
    pub count-rotate : (v : ℕ) (c : List A) → count key v (rotate c) ≡ count key v c
    count-rotate v [] = refl
    count-rotate v (d ∷ ds) = omega (arith, count-append key v ds (d ∷ []))

    -- The rest goes to the kept ones, and the cut ones stay at the end.
    pub record Shifted (k c r : List A) (res : Option (List A)) : Type 0 where
      pub kept : List A
      pub cut : List A
      pub done : res ≡ some (kept ++ cut)
      pub as_many : length cut ≡ length c
      pub kept_count : (v : ℕ) → count key v kept ≡ count key v k + count key v r
      pub cut_count : (v : ℕ) → count key v cut ≡ count key v c

    pub shift_loop-Shifted :
        (fuel : ℕ) (k c r : List A)
        → length r < fuel
        → Shifted k c r (shift_loop fuel (k ++ (c ++ r)) (length k + length c) (length c))
    unfolding shift_loop
    shift_loop-Shifted zero k c r h = absurd (omega arith)
    shift_loop-Shifted (suc fuel) k c [] h =
        let size : ltb (length k + length c) (length (k ++ (c ++ []))) ≡ false =
          rw (append-nil c) (ground (arith, length-append k c)) in
        record {
          kept = k;
          cut = c;
          done = rw (size, append-nil c) refl;
          as_many = refl;
          kept_count = λ v. omega arith;
          cut_count = λ v. refl;
        }
    shift_loop-Shifted (suc fuel) k c (x ∷ r) h =
        let more : ltb (length k + length c) (length (k ++ (c ++ x ∷ r))) ≡ true =
          ground (arith, length-append k (c ++ x ∷ r), length-append c (x ∷ r)) in
        let at : length k + length c - length c ≡ length k = omega arith in
        let next : length k + length c + 1 ≡ length (k ++ x ∷ []) + length (rotate c) =
          omega (arith, length-append k (x ∷ []), length-rotate c) in
        let ih = shift_loop-Shifted fuel (k ++ x ∷ []) (rotate c) r (omega arith) in
        let same = length-rotate c in
        record {
          kept = ih.kept;
          cut = ih.cut;
          done = rw (more, at, swap-split k c x r, next, ← same) (ih.done);
          as_many = ih.as_many ∙ same;
          kept_count = λ v. let e = ih.kept_count v in omega (arith, count-append key v k (x ∷ []));
          cut_count = λ v. ih.cut_count v ∙ count-rotate v c;
        }
