-- ===== src/Pmmr/Digits.antt =====
-- How far the next leaf is, read from the digits of a leaf's index. The index ends in `h` ones
-- exactly when a node of height `h` stands over the leaf.
use grin.Prelude.{
  ℕ, zero, suc, ◌+◌, ◌*◌, ◌/◌, ◌%◌, ◌^◌, ◌≤◌, ◌<◌, ◌≡◌, ap, sym, arith, ones, Bool-cases, ◌==◌, inl,
  inr,
}
use native.Mathlib.Nat.{pow-suc, mul_comm, div-div-eq-div-mul}
use grin.Pmmr.Ones.{ones-suc}

pub div-two_pow : (m h : ℕ) → m / 2 ^ suc h ≡ m / 2 / 2 ^ h
div-two_pow m h = rw (pow-suc 2 h, mul_comm) (sym (div-div-eq-div-mul m 2 (2 ^ h)))

-- Setting a digit that is 0 adds one to the digit sum.
pub ones-set : (h f m : ℕ) → m / 2 ^ h % 2 ≡ 0 → h < f → ones f (m + 2 ^ h) ≡ suc (ones f m)
unfolding ones
ones-set h zero m e b = elim b [ ]
ones-set zero (suc f) m e b = let half : (m + 1) / 2 ≡ m / 2 = omega arith in rw half (omega arith)
ones-set (suc h) (suc f) m e b =
    let half : (m + 2 ^ suc h) / 2 ≡ m / 2 + 2 ^ h = omega (arith, pow-suc 2 h) in
    rw half (omega (arith, ones-set h f (m / 2) (rw div-two_pow at e) (omega arith), pow-suc 2 h))

-- A long way to the next leaf means that the index ends in ones.
pub ends_in_ones :
    (h f m : ℕ)
    → m + 1 < 2 ^ f
    → ones f (m + 1) + h ≤ ones f m + 1
    → (q : ℕ) × (m + 1 ≡ (q + 1) * 2 ^ h)
unfolding ones
ends_in_ones zero f m b le = (m, omega arith)
ends_in_ones (suc h) zero m b le = absurd (omega arith)
ends_in_ones (suc h) (suc f) m b le = elim (Bool-cases (m % 2 == 0)) [
  | inl even ↦
      let half : (m + 1) / 2 ≡ m / 2 = ground arith in
      let same = ap (ones f) half in absurd (ground arith)
  | inr odd ↦
      let half : (m + 1) / 2 ≡ m / 2 + 1 = ground arith in
      let same = ap (ones f) half in
      let parity : m % 2 ≡ 1 = ground arith in
      let (q, e) = ends_in_ones h f (m / 2) (omega (arith, pow-suc 2 f)) (omega arith) in
      (q, omega (arith, ap (λ (t : ℕ). (q + 1) * t) (pow-suc 2 h)))
]

-- And the other way round.
pub far_from_next :
    (h f m q : ℕ) → m + 1 < 2 ^ f → m + 1 ≡ (q + 1) * 2 ^ h → ones f (m + 1) + h ≤ ones f m + 1
unfolding ones
far_from_next zero f m q b e = omega (arith, ones-suc f m)
far_from_next (suc h) zero m q b e = absurd (omega arith)
far_from_next (suc h) (suc f) m q b e =
    let twice : (q + 1) * 2 ^ suc h ≡ 2 * ((q + 1) * 2 ^ h) =
      omega (arith, ap (λ (t : ℕ). (q + 1) * t) (pow-suc 2 h)) in
    let half : (m + 1) / 2 ≡ m / 2 + 1 = omega arith in
    let same = ap (ones f) half in
    omega (arith, far_from_next h f (m / 2) q (omega (arith, pow-suc 2 f)) (omega arith))
