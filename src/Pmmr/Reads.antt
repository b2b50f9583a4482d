-- ===== src/Pmmr/Reads.antt =====
-- core/src/core/pmmr/pmmr.rs: what is read at a list of positions.
use grin.Prelude.{
  ℕ, zero, suc, ◌+◌, ◌-◌, ◌*◌, ◌^◌, ◌≤◌, ◌≡◌, refl, ap, inl, inr, arith, List, [], ◌∷◌, ◌++◌,
  length, Bool-cases, leb, Option, some, none,
}
use grin.Pmmr.Tops.{tops}
use grin.Pmmr.Reference.{mountains}
use grin.Pmmr.Range.{Pmmr, read_next, read_all, from_file, peak_from_file}

pub read_all-some :
    (get : ℕ → Option ℕ) (x h : ℕ)
    → get x ≡ some h
    → (xs : List ℕ) → read_all get (x ∷ xs) ≡ h ∷ read_all get xs
unfolding read_all
read_all-some get x h e xs = rw e refl

pub read_all-append :
    (get : ℕ → Option ℕ) (xs ys : List ℕ)
    → read_all get (xs ++ ys) ≡ read_all get xs ++ read_all get ys
unfolding read_all
read_all-append get [] ys = refl
read_all-append get (x ∷ xs) ys = added (get x) (read_all-append get xs ys)
  where
    added :
        (r : Option ℕ)
        → read_all get (xs ++ ys) ≡ read_all get xs ++ read_all get ys
        → read_next r (read_all get (xs ++ ys)) ≡ read_next r (read_all get xs) ++ read_all get ys
    added none ih = ih
    added (some h) ih = ap (λ (t : List ℕ). h ∷ t) ih

pub length-read_all : (get : ℕ → Option ℕ) (xs : List ℕ) → length (read_all get xs) ≤ length xs
unfolding read_all
length-read_all get [] = omega arith
length-read_all get (x ∷ xs) = bounded (get x) (length-read_all get xs)
  where
    bounded :
        (r : Option ℕ)
        → length (read_all get xs) ≤ length xs
        → length (read_next r (read_all get xs)) ≤ suc (length xs)
    bounded none ih = omega arith
    bounded (some h) ih = omega arith

module _ {T : Type 0} where
  pub same_reads :
      (p : Pmmr T) (xs : List ℕ) → read_all (peak_from_file p) xs ≡ read_all (from_file p) xs
  unfolding peak_from_file from_file
  same_reads p xs = refl

module _ {T : Type 0} (hash_with_index : T → ℕ → ℕ) (hash_children : ℕ → ℕ → ℕ → ℕ)
    (leaf : ℕ → T) where
  pub length-mountains :
      (k m r : ℕ)
      → length (mountains hash_with_index hash_children leaf k m r) ≡ length (tops k m r)
  unfolding mountains tops
  length-mountains zero m r = refl
  length-mountains (suc k) m r = elim (Bool-cases (leb (2 ^ k) r)) [
    | inl fits ↦ rw fits (ap suc (length-mountains k (2 * m + 1) (r - 2 ^ k)))
    | inr low ↦ rw low (length-mountains k (2 * m) r)
  ]
