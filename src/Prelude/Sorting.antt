-- ===== src/Prelude/Sorting.antt =====
-- Vec::sort_unstable, Vec::dedup and `windows(2)`, and the lists without repetitions.
use Prim.Native.Nat.{ℕ, suc, ◌≤◌, ◌<◌}
use mathlib.Core.Path.{◌≡◌, refl, sym, ap}
use mathlib.Core.Logic.{◌≢◌, ◌↔◌, inl, inr}
use mathlib.Core.Bool.{Bool, false, ◌||◌}
use mathlib.Core.List.{List, [], ◌∷◌}
use native.Mathlib.Omega.{arith}
use grin.Prelude.Tests.{leb, ◌==◌, if◌then◌else◌, ==_iff, Bool-cases, leb→le}
use grin.Prelude.Lists.{length, All}

module _ {A : Type 0} (key : A → ℕ) where
  unfoldable pub insert : A → List A → List A
  insert x [] = x ∷ []
  insert x (y ∷ ys) = let rest = insert x ys in if leb (key x) (key y) then x ∷ y ∷ ys else y ∷ rest

  -- What is equal under the key may stand in any order: here it stays as it was.
  unfoldable pub sort : List A → List A
  sort [] = []
  sort (x ∷ xs) = insert x (sort xs)

-- `windows(2).any(|pair| pair[0] == pair[1])`.
unfoldable pub any_adjacent : List ℕ → Bool
any_adjacent [] = false
any_adjacent (x ∷ []) = false
any_adjacent (x ∷ y ∷ ys) = x == y || any_adjacent (y ∷ ys)

unfoldable pub dedup : List ℕ → List ℕ
dedup [] = []
dedup (x ∷ []) = x ∷ []
dedup (x ∷ y ∷ ys) = let rest = dedup (y ∷ ys) in if x == y then rest else x ∷ rest

-- No value stands twice in the list.
unfoldable pub IsDistinct : List ℕ → Type 0
IsDistinct [] = Unit {0}
IsDistinct (x ∷ xs) = All (λ y. x ≢ y) xs × IsDistinct xs

abbrev pub same : ℕ → ℕ
same n = n

pub IsSorted : List ℕ → Type 0
IsSorted [] = Unit {0}
IsSorted (x ∷ xs) = All (λ y. x ≤ y) xs × IsSorted xs

All-insert {κ} :
    (P : ℕ → Type κ) (x : ℕ) (ys : List ℕ) → All P (insert same x ys) ↔ (P x × All P ys)
unfolding insert
All-insert P x [] = (λ h. h, λ h. h)
All-insert P x (y ∷ ys) = elim (Bool-cases (leb x y)) [
  | inl le ↦ rw le (λ h. h, λ h. h)
  | inr gt ↦
      let (there, back) = All-insert P x ys in
      rw gt (λ h. ((there (h.1)).0, (h.0, (there (h.1)).1)), λ h. (h.1.0, back (h.0, h.1.1)))
]

pub All-map {κ μ} :
    (P : ℕ → Type κ) (Q : ℕ → Type μ) (ys : List ℕ) → ((y : ℕ) → P y → Q y) → All P ys → All Q ys
All-map P Q [] f h = tt
All-map P Q (y ∷ ys) f h = (f y (h.0), All-map P Q ys f (h.1))

insert-IsSorted : (x : ℕ) (ys : List ℕ) → IsSorted ys → IsSorted (insert same x ys)
unfolding insert IsSorted
insert-IsSorted x [] h = (tt, tt)
insert-IsSorted x (y ∷ ys) h = elim (Bool-cases (leb x y)) [
  | inl le ↦
      let xy = leb→le x y le in
      rw le ((xy, All-map (λ z. y ≤ z) (λ z. x ≤ z) ys (λ z yz. omega arith) (h.0)), h)
  | inr gt ↦
      let yx : y ≤ x = ground arith in
      rw gt ((All-insert (λ z. y ≤ z) x ys).1 (yx, h.0), insert-IsSorted x ys (h.1))
]

pub sort-IsSorted : (xs : List ℕ) → IsSorted (sort same xs)
unfolding sort IsSorted
sort-IsSorted [] = tt
sort-IsSorted (x ∷ xs) = insert-IsSorted x (sort same xs) (sort-IsSorted xs)

insert-IsDistinct :
    (x : ℕ) (ys : List ℕ) → IsDistinct (insert same x ys) ↔ (All (λ y. x ≢ y) ys × IsDistinct ys)
unfolding insert IsDistinct
insert-IsDistinct x [] = (λ h. h, λ h. h)
insert-IsDistinct x (y ∷ ys) = elim (Bool-cases (leb x y)) [
  | inl le ↦ rw le (λ h. h, λ h. h)
  | inr gt ↦
      let (there, back) = insert-IsDistinct x ys in
      let (apart, join) = All-insert (λ z. y ≢ z) x ys in
      rw gt (
        λ h.
            (((λ e. (apart (h.0)).0 (sym e)), (there (h.1)).0), ((apart (h.0)).1, (there (h.1)).1)),
        λ h. (join ((λ e. h.0.0 (sym e)), h.1.0), back (h.0.1, h.1.1)),
      )
]

All-sort {κ} : (P : ℕ → Type κ) (xs : List ℕ) → All P (sort same xs) ↔ All P xs
unfolding sort
All-sort P [] = (λ h. h, λ h. h)
All-sort P (x ∷ xs) =
    let (there, back) = All-insert P x (sort same xs) in
    let (down, up) = All-sort P xs in
    (λ h. ((there h).0, down ((there h).1)), λ h. back (h.0, up (h.1)))

sort-IsDistinct : (xs : List ℕ) → IsDistinct (sort same xs) ↔ IsDistinct xs
unfolding sort IsDistinct
sort-IsDistinct [] = (λ h. h, λ h. h)
sort-IsDistinct (x ∷ xs) =
    let (there, back) = insert-IsDistinct x (sort same xs) in
    let (down, up) = All-sort (λ y. x ≢ y) xs in
    let (fore, hind) = sort-IsDistinct xs in
    (λ h. (down ((there h).0), fore ((there h).1)), λ h. back (up (h.0), hind (h.1)))

-- In a sorted list, equal values are neighbours.
pub sorted_iff : (xs : List ℕ) → IsSorted xs → (any_adjacent xs ≡ false) ↔ IsDistinct xs
unfolding any_adjacent IsDistinct IsSorted
sorted_iff [] h = (λ e. tt, λ d. refl)
sorted_iff (x ∷ []) h = (λ e. (tt, tt), λ d. refl)
sorted_iff (x ∷ y ∷ ys) h = elim (Bool-cases (x == y)) [
  | inl e ↦ rw e (λ p. cc, λ d. absurd (d.0.0 ((==_iff x y).0 e)))
  | inr n ↦
      let (there, back) = sorted_iff (y ∷ ys) (h.1) in
      let lt : x < y = let le = h.0.0 in ground arith in
      rw n (
        λ p. (
          (
            (λ e. absurd (omega arith)),
            All-map (λ z. y ≤ z) (λ z. x ≢ z) ys (λ z yz e. absurd (omega arith)) (h.1.0),
          ),
          there p,
        ),
        λ d. back (d.1),
      )
]

-- Sorting brings repetitions together: there is a pair of equal neighbours exactly when a value
-- stands twice.
pub any_adjacent-sort :
    (xs : List ℕ) → (any_adjacent (sort (λ (n : ℕ). n) xs) ≡ false) ↔ IsDistinct xs
any_adjacent-sort xs =
    let (there, back) = sorted_iff (sort same xs) (sort-IsSorted xs) in
    let (down, up) = sort-IsDistinct xs in (λ e. down (there e), λ d. back (up d))

length-dedup : (xs : List ℕ) → length (dedup xs) ≤ length xs
unfolding dedup
length-dedup [] = omega arith
length-dedup (x ∷ []) = omega arith
length-dedup (x ∷ y ∷ ys) = ground (arith, length-dedup (y ∷ ys))

-- dedup keeps the length exactly where no neighbours are equal.
pub length-dedup_iff : (xs : List ℕ) → (length xs ≡ length (dedup xs)) ↔ (any_adjacent xs ≡ false)
unfolding dedup any_adjacent
length-dedup_iff [] = (λ e. refl, λ e. refl)
length-dedup_iff (x ∷ []) = (λ e. refl, λ e. refl)
length-dedup_iff (x ∷ y ∷ ys) = elim (Bool-cases (x == y)) [
  | inl e ↦ rw e (λ p. absurd (omega (arith, length-dedup (y ∷ ys))), λ p. cc)
  | inr n ↦
      let (there, back) = length-dedup_iff (y ∷ ys) in
      rw n (λ p. there (omega arith), λ p. ap suc (back p))
]
