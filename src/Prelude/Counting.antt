-- ===== src/Prelude/Counting.antt =====
-- How often a key stands in a list, and sorting by keys.
use Prim.Native.Nat.{ℕ, suc, ◌+◌, ◌≤◌, ◌<◌}
use mathlib.Core.Path.{◌≡◌, refl, ap, ◌∙◌}
use mathlib.Core.Logic.{inl, inr, ◌↔◌}
use mathlib.Core.List.{List, [], ◌∷◌, ◌++◌, map}
use native.Mathlib.Omega.{arith}
use mathlib.Core.Bool.{false}
use grin.Prelude.Tests.{leb, ◌==◌, if◌then◌else◌, Bool-cases}
use grin.Prelude.Lists.{All, length}
use grin.Prelude.Sorting.{insert, sort, same, any_adjacent, IsDistinct, sort-IsSorted, sorted_iff}

module _ {A : Type 0} (key : A → ℕ) where
  abbrev pub count : ℕ → List A → ℕ
  count v [] = 0
  count v (x ∷ xs) = (if key x == v then 1 else 0) + count v xs

  pub count-append : (v : ℕ) (xs ys : List A) → count v (xs ++ ys) ≡ count v xs + count v ys
  count-append v [] ys = omega arith
  count-append v (x ∷ xs) ys = omega (arith, count-append v xs ys)

  pub count-zero : (v : ℕ) (xs : List A) → All (λ (x : A). v < key x) xs → count v xs ≡ 0
  count-zero v [] h = refl
  count-zero v (x ∷ xs) h = let lt = h.0 in ground (arith, count-zero v xs (h.1))

  abbrev pub IsSortedBy : List A → Type 0
  IsSortedBy [] = Unit {0}
  IsSortedBy (x ∷ xs) = All (λ (y : A). key x ≤ key y) xs × IsSortedBy xs

  module _ (order : A → ℕ) where
    count-insert : (v : ℕ) (x : A) (xs : List A) → count v (insert order x xs) ≡ count v (x ∷ xs)
    unfolding insert
    count-insert v x [] = refl
    count-insert v x (y ∷ ys) = elim (Bool-cases (leb (order x) (order y))) [
      | inl le ↦ rw le refl
      | inr gt ↦ rw gt (omega (arith, count-insert v x ys))
    ]

    -- Whatever the order, sorting keeps the counts.
    pub count-sort : (v : ℕ) (xs : List A) → count v (sort order xs) ≡ count v xs
    unfolding sort
    count-sort v [] = refl
    count-sort v (x ∷ xs) = omega (arith, count-insert v x (sort order xs), count-sort v xs)

  All-insert_ge :
      (k : ℕ) (x : A) (ys : List A)
      → k ≤ key x
      → All (λ (y : A). k ≤ key y) ys
      → All (λ (y : A). k ≤ key y) (insert key x ys)
  unfolding insert
  All-insert_ge k x [] h a = (h, tt)
  All-insert_ge k x (y ∷ ys) h a = elim (Bool-cases (leb (key x) (key y))) [
    | inl le ↦ rw le (h, a)
    | inr gt ↦ rw gt (a.0, All-insert_ge k x ys h (a.1))
  ]

  pub All-le_trans :
      (k m : ℕ) (ys : List A)
      → k ≤ m
      → All (λ (y : A). m ≤ key y) ys
      → All (λ (y : A). k ≤ key y) ys
  All-le_trans k m [] h a = tt
  All-le_trans k m (y ∷ ys) h a = (let le = a.0 in omega arith, All-le_trans k m ys h (a.1))

  pub All-lt_trans :
      (k m : ℕ) (ys : List A)
      → k < m
      → All (λ (y : A). m ≤ key y) ys
      → All (λ (y : A). k < key y) ys
  All-lt_trans k m [] h a = tt
  All-lt_trans k m (y ∷ ys) h a = (let le = a.0 in omega arith, All-lt_trans k m ys h (a.1))

  insert-IsSortedBy : (x : A) (ys : List A) → IsSortedBy ys → IsSortedBy (insert key x ys)
  unfolding insert
  insert-IsSortedBy x [] h = (tt, tt)
  insert-IsSortedBy x (y ∷ ys) h = elim (Bool-cases (leb (key x) (key y))) [
    | inl le ↦
        let xy : key x ≤ key y = ground arith in
        rw le ((xy, All-le_trans (key x) (key y) ys xy (h.0)), h)
    | inr gt ↦
        let yx : key y ≤ key x = ground arith in
        rw gt (All-insert_ge (key y) x ys yx (h.0), insert-IsSortedBy x ys (h.1))
  ]

  pub sort-IsSortedBy : (xs : List A) → IsSortedBy (sort key xs)
  unfolding sort
  sort-IsSortedBy [] = tt
  sort-IsSortedBy (x ∷ xs) = insert-IsSortedBy x (sort key xs) (sort-IsSortedBy xs)

  map-insert : (x : A) (xs : List A) → map key (insert key x xs) ≡ insert same (key x) (map key xs)
  unfolding insert
  map-insert x [] = refl
  map-insert x (y ∷ ys) = elim (Bool-cases (leb (key x) (key y))) [
    | inl le ↦ rw le refl
    | inr gt ↦ rw (gt, map-insert x ys) refl
  ]

  map-sort : (xs : List A) → map key (sort key xs) ≡ sort same (map key xs)
  unfolding sort
  map-sort [] = refl
  map-sort (x ∷ xs) = map-insert x (sort key xs) ∙ ap (insert same (key x)) (map-sort xs)

  -- In a list sorted by the keys, a repeated key shows in neighbours.
  pub any_adjacent-map-sort :
      (xs : List A)
      → (any_adjacent (map key (sort key xs)) ≡ false) ↔ IsDistinct (map key (sort key xs))
  any_adjacent-map-sort xs =
      sorted_iff (map key (sort key xs)) (rw (map-sort xs) (sort-IsSorted (map key xs)))

  length-insert : (x : A) (xs : List A) → length (insert key x xs) ≡ suc (length xs)
  unfolding insert
  length-insert x [] = refl
  length-insert x (y ∷ ys) = elim (Bool-cases (leb (key x) (key y))) [
    | inl le ↦ rw le refl
    | inr gt ↦ rw gt (ap suc (length-insert x ys))
  ]

  pub length-sort : (xs : List A) → length (sort key xs) ≡ length xs
  unfolding sort
  length-sort [] = refl
  length-sort (x ∷ xs) = length-insert x (sort key xs) ∙ ap suc (length-sort xs)
