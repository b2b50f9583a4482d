-- ===== src/Pmmr/Tops.antt =====
-- core/src/core/pmmr/pmmr.rs: the peaks of the size that `n` elements take.
use grin.Prelude.{
  false, ℕ, zero, suc, ◌+◌, ◌-◌, ◌*◌, ◌/◌, ◌^◌, ◌≤◌, ◌<◌, ◌≡◌, refl, ap, sym, ◌∙◌, inl, inr, arith,
  List, [], ◌∷◌, ◌++◌, ◌==◌, leb, Bool-cases, if◌then◌else◌, add64, sub64, leading_zeros,
}
use mathlib.Core.List.{append_assoc, append-nil}
use native.Mathlib.Nat.{pow-suc, mul-le-mul_left, pow-le-pow_right}
use native.Mathlib.Decide.{dec_le}
use grin.Pmmr.Ones.{
  leaf_pos, leaf_pos-suc, le-leaf_pos, leaf_pos-zero, two_pow_pos, leaf_pos-add-two_pow,
}
use grin.Pmmr.Peaks.{low_half, bit_length, mask_table, half_full, full_pos}
use grin.Pmmr.Nodes.{
  node_pos, width, width_lem, leaf_pos_shift, leaf_pos_double, leaf_pos_double_suc,
}
use grin.Pmmr.Index.{peak_sizes_loop, peak_sizes_height, running_sums, peaks}

-- The sizes of the trees that `n` elements make, fewer than 2 ^ k.
unfoldable pub sizes : ℕ → ℕ → List ℕ
sizes zero n = []
sizes (suc k) n =
    let with_tree = (2 ^ suc k - 1) ∷ sizes k (n - 2 ^ k) in
    let without = sizes k n in if leb (2 ^ k) n then with_tree else without

-- And where they stand behind the `m * 2 ^ k` first ones.
unfoldable pub tops : ℕ → ℕ → ℕ → List ℕ
tops zero m n = []
tops (suc k) m n =
    let with_tree = node_pos k (2 * m) ∷ tops k (2 * m + 1) (n - 2 ^ k) in
    let without = tops k (2 * m) n in if leb (2 ^ k) n then with_tree else without

loop_skip :
    (fuel p size : ℕ) (acc : List ℕ)
    → 0 < p
    → size < p
    → peak_sizes_loop (suc fuel) p size acc ≡ peak_sizes_loop fuel (p / 2) size acc
unfolding peak_sizes_loop
loop_skip fuel p size acc pos h = ground arith

loop_take :
    (fuel p size : ℕ) (acc : List ℕ)
    → 0 < p
    → p ≤ size
    → peak_sizes_loop (suc fuel) p size acc
      ≡ peak_sizes_loop fuel (p / 2) (size - p) (acc ++ p ∷ [])
unfolding peak_sizes_loop
loop_take fuel p size acc pos h = ground arith

loop_end : (fuel size : ℕ) (acc : List ℕ) → peak_sizes_loop fuel 0 size acc ≡ (acc, size)
unfolding peak_sizes_loop
loop_end zero size acc = refl
loop_end (suc fuel) size acc = refl

sizes_descend :
    (k fuel r : ℕ) (acc : List ℕ)
    → k ≤ fuel
    → fuel ≤ 64
    → r < 2 ^ k
    → peak_sizes_loop fuel (2 ^ k - 1) (leaf_pos r) acc ≡ (acc ++ sizes k r, 0)
unfolding sizes
sizes_descend zero fuel r acc kf fb rb =
    let e : r ≡ 0 = omega arith in
    rw (e, leaf_pos-zero, loop_end) (ap (λ (t : List ℕ). (t, 0)) (sym (append-nil acc)))
sizes_descend (suc k) zero r acc kf fb rb = elim kf [ ]
sizes_descend (suc k) (suc fuel) r acc kf fb rb = elim (Bool-cases (leb (2 ^ k) r)) [
  | inr low ↦
      let (small, fits) =
        low_half k r 0 (omega arith) (ground arith) (inr (omega (arith, leaf_pos-suc r))) in
      rw low (
        loop_skip fuel (2 ^ suc k - 1) (leaf_pos r) acc (full_pos k) (omega arith)
        ∙ rw (half_full k) (sizes_descend k fuel r acc (omega arith) (omega arith) (ground arith)))
  | inl high ↦
      let split : 2 ^ k + (r - 2 ^ k) ≡ r = ground arith in
      let below : r - 2 ^ k < 2 ^ k = omega (arith, pow-suc 2 k) in
      let whole = rw split at (leaf_pos-add-two_pow k (r - 2 ^ k) (omega arith) below) in
      let rest : leaf_pos r - (2 ^ suc k - 1) ≡ leaf_pos (r - 2 ^ k) = omega arith in
      rw high (
        loop_take fuel (2 ^ suc k - 1) (leaf_pos r) acc (full_pos k) (omega arith)
        ∙ rw (half_full k, rest)
            (sizes_descend k fuel (r - 2 ^ k) (acc ++ (2 ^ suc k - 1) ∷ []) (omega arith)
              (omega arith) below)
        ∙ ap (λ (t : List ℕ). (t, 0))
            (append_assoc acc ((2 ^ suc k - 1) ∷ []) (sizes k (r - 2 ^ k))))
]

-- Digits above the highest one change nothing.
sizes-more : (d k n : ℕ) → n < 2 ^ k → k ≤ d → sizes d n ≡ sizes k n
unfolding sizes
sizes-more zero k n h le = let e : k ≡ 0 = omega arith in rw e refl
sizes-more (suc d) k n h le = elim (dec_le k d) [
  | yes more ↦
      let below : (leb (2 ^ d) n) ≡ false =
        ground (arith, pow-le-pow_right {n = 2} (omega arith) more) in
      rw below (sizes-more d k n h more)
  | no top ↦ let e : suc d ≡ k = omega arith in ap (λ (t : ℕ). sizes t n) e
]

sizes-none : (k : ℕ) → sizes k 0 ≡ []
unfolding sizes
sizes-none k = sizes-more k 0 0 (omega arith) (omega arith)

pub peak_sizes-leaf_pos : (n : ℕ) → n < 2 ^ 62 → peak_sizes_height (leaf_pos n) ≡ (sizes 64 n, 0)
unfolding peak_sizes_height leading_zeros
peak_sizes-leaf_pos zero h = rw (leaf_pos-zero, sizes-none 64) refl
peak_sizes-leaf_pos (suc n) h =
    let size = leaf_pos (suc n) in
    let low = le-leaf_pos (suc n) in
    let (k, digits, kb, lt) = bit_length 64 size (omega arith) (omega arith) in
    let positive : (size == 0) ≡ false = ground arith in
    let fits : suc n < 2 ^ suc k = omega arith in
    rw (positive, digits, mask_table k kb)
      (sizes_descend (suc k) 64 (suc n) [] (omega arith) (omega arith) fits
        ∙ ap (λ (t : List ℕ). (t, 0)) (sym (sizes-more 64 (suc k) (suc n) fits (omega arith))))

-- The running sum before a tree leads to its root.
sum_step :
    (k m n : ℕ)
    → m * 2 ^ suc k + n < 2 ^ 62
    → 2 ^ k ≤ n
    → (sub64 (add64 (leaf_pos m + width (suc k) * m) (2 ^ suc k - 1)) 1 ≡ node_pos k (2 * m))
      × (add64 (leaf_pos m + width (suc k) * m) (2 ^ suc k - 1)
          ≡ leaf_pos (2 * m + 1) + width k * (2 * m + 1))
      × ((2 * m + 1) * 2 ^ k + (n - 2 ^ k) < 2 ^ 62)
unfolding node_pos
sum_step k m n h le =
    let twice : m * 2 ^ suc k ≡ 2 * m * 2 ^ k =
      omega (arith, ap (λ (t : ℕ). m * t) (pow-suc 2 k)) in
    let small : (2 * m + 1) * 1 ≤ (2 * m + 1) * 2 ^ k =
      mul-le-mul_left (2 * m + 1) (two_pow_pos k) in
    let more : (2 * m + 1) * 2 ^ k ≡ 2 * m * 2 ^ k + 2 ^ k = omega arith in
    let shift = leaf_pos_shift k (2 * m + 1) (omega arith) in
    let bound = le-leaf_pos ((2 * m + 1) * 2 ^ k) in
    let double = leaf_pos_double m (omega arith) in
    let double_suc = leaf_pos_double_suc m (omega arith) in
    let full = width_lem k in let full' = pow-suc 2 k in (omega arith, omega arith, omega arith)

running_sums-sizes :
    (k m n : ℕ)
    → m * 2 ^ k + n < 2 ^ 62
    → running_sums (leaf_pos m + width k * m) (sizes k n) ≡ tops k m n
unfolding running_sums sizes tops
running_sums-sizes zero m n h = refl
running_sums-sizes (suc k) m n h = elim (Bool-cases (leb (2 ^ k) n)) [
  | inl fits ↦
      let (place, sum, inside) = sum_step k m n h (ground arith) in
      rw (fits, place, sum)
        (ap (λ (t : List ℕ). node_pos k (2 * m) ∷ t)
          (running_sums-sizes k (2 * m + 1) (n - 2 ^ k) inside))
  | inr low ↦
      let twice : m * 2 ^ suc k ≡ 2 * m * 2 ^ k =
        omega (arith, ap (λ (t : ℕ). m * t) (pow-suc 2 k)) in
      let small : m * 1 ≤ m * 2 ^ suc k = mul-le-mul_left m (two_pow_pos (suc k)) in
      let same : leaf_pos m + width (suc k) * m ≡ leaf_pos (2 * m) + width k * (2 * m) =
        omega (arith, leaf_pos_double m (omega arith)) in
      rw (low, same) (running_sums-sizes k (2 * m) n (omega arith))
]

pub peaks-leaf_pos : (n : ℕ) → n < 2 ^ 62 → peaks (leaf_pos n) ≡ tops 64 0 n
unfolding peaks
peaks-leaf_pos n h = rw (peak_sizes-leaf_pos n h) (
    let none_before : leaf_pos 0 + width 64 * 0 ≡ 0 = omega (arith, leaf_pos-zero) in
    rw none_before at (running_sums-sizes 64 0 n (omega arith)))
