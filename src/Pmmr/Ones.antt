-- ===== src/Pmmr/Ones.antt =====
-- Digit sums: the facts about u64::count_ones on which the position of a leaf rests.
use grin.Prelude.{
  ℕ, zero, suc, ◌+◌, ◌-◌, ◌*◌, ◌/◌, ◌%◌, ◌^◌, ◌≤◌, ◌<◌, ◌≡◌, refl, arith, ones, count_ones,
  Bool-cases, ◌==◌, inl, inr,
}
use native.Mathlib.Nat.{pow-suc, le_trans}
use native.Mathlib.Numerals.{add-one}
use native.Mathlib.Decide.{dec_le, dec_lt}
pub use grin.Prelude.Bits.{two_pow_pos}
use grin.Pmmr.Index.{insertion_to_pmmr_index}

ones-zero : (f : ℕ) → ones f 0 ≡ 0
unfolding ones
ones-zero zero = refl
ones-zero (suc f) = omega (arith, ones-zero f)

pub ones-le : (f n : ℕ) → ones f n ≤ n
unfolding ones
ones-le zero n = omega arith
ones-le (suc f) n = omega (arith, ones-le f (n / 2))

pub ones-suc : (f n : ℕ) → ones f (n + 1) ≤ ones f n + 1
unfolding ones
ones-suc zero n = omega arith
ones-suc (suc f) n = elim (Bool-cases (n % 2 == 0)) [
  | inl even ↦ let same : (n + 1) / 2 ≡ n / 2 = ground arith in rw same (ground arith)
  | inr odd ↦
      let next : (n + 1) / 2 ≡ n / 2 + 1 = ground arith in
      rw next (ground (arith, ones-suc f (n / 2)))
]

-- A digit above the others counts one.
ones-add-two_pow : (k f m : ℕ) → m < 2 ^ k → k < f → ones f (2 ^ k + m) ≡ suc (ones f m)
unfolding ones
ones-add-two_pow k zero m h b = elim b [ ]
ones-add-two_pow zero (suc f) m h b =
    let e : m ≡ 0 = omega arith in rw e (omega (arith, ones-zero f))
ones-add-two_pow (suc k) (suc f) m h b =
    let half : (2 ^ suc k + m) / 2 ≡ 2 ^ k + m / 2 = omega (arith, pow-suc 2 k) in
    rw half (
      omega (
        arith,
        ones-add-two_pow k f (m / 2) (omega (arith, pow-suc 2 k)) (omega arith),
        pow-suc 2 k,
      ))

-- The position of the leaf with index `n`, as a number without a bound.
unfoldable pub leaf_pos : ℕ → ℕ
leaf_pos n = 2 * n - count_ones n

pub leaf_pos-zero : leaf_pos 0 ≡ 0
unfolding leaf_pos
leaf_pos-zero = omega arith

pub le-leaf_pos : (n : ℕ) → (n ≤ leaf_pos n) × (leaf_pos n ≤ 2 * n)
unfolding leaf_pos count_ones
le-leaf_pos n = omega (arith, ones-le 64 n)

-- The positions of the leaves rise.
pub leaf_pos-suc : (n : ℕ) → leaf_pos n < leaf_pos (n + 1)
unfolding leaf_pos count_ones
leaf_pos-suc n = omega (arith, ones-le 64 n, ones-le 64 (n + 1), ones-suc 64 n)

pub leaf_pos_mono : (n m : ℕ) → n ≤ m → leaf_pos n ≤ leaf_pos m
leaf_pos_mono n zero h = let e : n ≡ 0 = omega arith in rw e (omega arith)
leaf_pos_mono n (suc m) h = elim (dec_le n m) [
  | yes p ↦ le_trans (leaf_pos_mono n m p) (rw (← add-one m) (omega (arith, leaf_pos-suc m)))
  | no p ↦ let e : n ≡ suc m = omega arith in rw e (omega arith)
]

-- A full tree of 2 ^ k leaves has 2 ^ (k + 1) - 1 nodes, and they stand before the leaves that follow.
pub leaf_pos-add-two_pow :
    (k m : ℕ) → k < 64 → m < 2 ^ k → leaf_pos (2 ^ k + m) ≡ 2 ^ suc k - 1 + leaf_pos m
unfolding leaf_pos count_ones
leaf_pos-add-two_pow k m b h =
    omega (arith, ones-add-two_pow k 64 m h b, pow-suc 2 k, ones-le 64 m, two_pow_pos k)

-- Below 2 ^ 63 leaves the word arithmetic of the code does not wrap.
pub insertion-eq-leaf_pos : (n : ℕ) → n < 2 ^ 63 → insertion_to_pmmr_index n ≡ leaf_pos n
unfolding leaf_pos insertion_to_pmmr_index count_ones
insertion-eq-leaf_pos n h = omega (arith, ones-le 64 n)

-- Every position lies between two leaves.
pub locate : (s : ℕ) → (m : ℕ) × (leaf_pos m ≤ s) × (s < leaf_pos (m + 1))
locate zero = (0, omega (arith, leaf_pos-zero), omega (arith, leaf_pos-suc 0, leaf_pos-zero))
locate (suc s) =
    let (m, lo, hi) = locate s in
    elim (dec_lt (suc s) (leaf_pos (m + 1))) [
      | yes p ↦ (m, omega arith, p)
      | no p ↦ (m + 1, omega arith, omega (arith, leaf_pos-suc (m + 1)))
    ]
