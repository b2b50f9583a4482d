-- ===== src/Pmmr/Nodes.antt =====
-- core/src/core/pmmr/pmmr.rs: where the perfect trees of the range stand. The node of height `k` with
-- index `q` is the root over the leaves from `q * 2 ^ k` on.
use grin.Prelude.{
  ℕ, zero, suc, ◌+◌, ◌*◌, ◌/◌, ◌^◌, ◌≤◌, ◌<◌, ◌≡◌, refl, ap, arith, ones, count_ones,
}
use native.Mathlib.Nat.{pow-suc, mul-le-mul_left}
use grin.Pmmr.Ones.{leaf_pos, ones-le, two_pow_pos}

ones-enough : (f n : ℕ) → n < 2 ^ f → ones (suc f) n ≡ ones f n
unfolding ones
ones-enough zero n h = let e : n ≡ 0 = omega arith in rw e refl
ones-enough (suc f) n h = omega (arith, ones-enough f (n / 2) (omega (arith, pow-suc 2 f)))

ones-double : (f n : ℕ) → ones (suc f) (2 * n) ≡ ones f n
unfolding ones
ones-double f n = let half : 2 * n / 2 ≡ n = omega arith in rw half (omega arith)

ones-double_suc : (f n : ℕ) → ones (suc f) (2 * n + 1) ≡ suc (ones f n)
unfolding ones
ones-double_suc f n = let half : (2 * n + 1) / 2 ≡ n = omega arith in rw half (omega arith)

pub leaf_pos_double : (m : ℕ) → m < 2 ^ 63 → leaf_pos (2 * m) ≡ 2 * m + leaf_pos m
unfolding leaf_pos count_ones
leaf_pos_double m h = omega (arith, ones-double 63 m, ones-enough 63 m h, ones-le 64 m)

pub leaf_pos_double_suc : (m : ℕ) → m < 2 ^ 63 → leaf_pos (2 * m + 1) ≡ 2 * m + 1 + leaf_pos m
unfolding leaf_pos count_ones
leaf_pos_double_suc m h = omega (arith, ones-double_suc 63 m, ones-enough 63 m h, ones-le 64 m)

-- The nodes of a perfect tree but its root: 2 ^ (k + 1) - 2.
abbrev pub width : ℕ → ℕ
width zero = 0
width (suc k) = 2 * width k + 2

pub width_lem : (k : ℕ) → width k + 2 ≡ 2 * 2 ^ k
width_lem zero = omega arith
width_lem (suc k) = omega (arith, width_lem k, pow-suc 2 k)

unfoldable pub node_pos : ℕ → ℕ → ℕ
node_pos k q = leaf_pos q + width k * (q + 1)

pub leaf_pos_shift :
    (k m : ℕ) → m * 2 ^ k < 2 ^ 63 → leaf_pos (m * 2 ^ k) ≡ leaf_pos m + width k * m
leaf_pos_shift zero m h = let e : m * 1 ≡ m = omega arith in rw e (omega arith)
leaf_pos_shift (suc k) m h =
    let twice : m * 2 ^ suc k ≡ 2 * m * 2 ^ k =
      omega (arith, ap (λ (t : ℕ). m * t) (pow-suc 2 k)) in
    let small : 2 * m * 1 ≤ 2 * m * 2 ^ k = mul-le-mul_left (2 * m) (two_pow_pos k) in
    let bound : m < 2 ^ 63 = omega arith in
    let ih = leaf_pos_shift k (2 * m) (omega arith) in
    let double = leaf_pos_double m bound in rw (twice, ih) (omega arith)

pub node_pos-zero : (q : ℕ) → node_pos 0 q ≡ leaf_pos q
unfolding node_pos
node_pos-zero q = omega arith

-- The right child stands behind all of the right half.
pub node_pos-right :
    (k q : ℕ) → q < 2 ^ 63 → node_pos k (2 * q + 1) + 1 ≡ node_pos k (2 * q) + 2 * 2 ^ k
unfolding node_pos
node_pos-right k q h = omega (arith, leaf_pos_double q h, leaf_pos_double_suc q h, width_lem k)

pub node_pos-parent : (k q : ℕ) → q < 2 ^ 63 → node_pos (suc k) q ≡ node_pos k (2 * q + 1) + 1
unfolding node_pos
node_pos-parent k q h = omega (arith, leaf_pos_double_suc q h)
