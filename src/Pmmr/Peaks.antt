-- ===== src/Pmmr/Peaks.antt =====
-- core/src/core/pmmr/pmmr.rs: what peak_map_height computes. The peak map of a size is the number
-- of leaves before that position, and the height counts the nodes since the last of their leaves.
use grin.Prelude.{
  ℕ, zero, suc, ◌+◌, ◌-◌, ◌*◌, ◌/◌, ◌%◌, ◌^◌, ◌≤◌, ◌<◌, ◌≡◌, ◌⊎◌, inl, inr, refl, ap, ◌∙◌, arith,
  false, ◌==◌, all_below, all_below_sound, ==_iff, u64_max, leading_zeros, bit_length_from,
}
use grin.Prelude.Bits.{bit_or-one_even}
use native.Mathlib.Nat.{pow-suc, mul-le-mul_left}
use native.Mathlib.Decide.{dec_lt}
use grin.Pmmr.Ones.{
  two_pow_pos, leaf_pos, leaf_pos-zero, le-leaf_pos, leaf_pos_mono, leaf_pos-add-two_pow,
}
use grin.Pmmr.Index.{peak_map_loop, peak_map_height}

-- A height that the leaf `m` can have over it, in a tree of 2 ^ k leaves.
abbrev pub Fits : ℕ → ℕ → ℕ → Type 0
Fits k m h = (m + 1 ≡ 2 ^ k) ⊎ (leaf_pos m + h < leaf_pos (m + 1))

-- One round of the loop.
peak_map_round_skip :
    (fuel p size acc : ℕ)
    → 0 < p
    → size < p
    → acc * 2 < 2 ^ 64
    → peak_map_loop (suc fuel) p size acc ≡ peak_map_loop fuel (p / 2) size (acc * 2)
unfolding peak_map_loop
peak_map_round_skip fuel p size acc pos h b = ground arith

peak_map_round_take :
    (fuel p size acc : ℕ)
    → 0 < p
    → p ≤ size
    → acc * 2 < 2 ^ 64
    → peak_map_loop (suc fuel) p size acc ≡ peak_map_loop fuel (p / 2) (size - p) (acc * 2 + 1)
unfolding peak_map_loop
peak_map_round_take fuel p size acc pos h b = ground (arith, bit_or-one_even acc)

pub half_full : (k : ℕ) → (2 ^ suc k - 1) / 2 ≡ 2 ^ k - 1
half_full k = omega (arith, pow-suc 2 k, two_pow_pos k)

peak_map_loop_end : (fuel size acc : ℕ) → peak_map_loop fuel 0 size acc ≡ (acc, size)
unfolding peak_map_loop
peak_map_loop_end zero size acc = refl
peak_map_loop_end (suc fuel) size acc = refl

-- In the lower half the tree of the top digit does not fit, and the rest is as before.
pub low_half :
    (k m h : ℕ)
    → k < 64
    → m < 2 ^ k
    → Fits (suc k) m h
    → (leaf_pos m + h < 2 ^ suc k - 1) × Fits k m h
low_half k m h b low (inl full) = absurd (omega (arith, pow-suc 2 k, two_pow_pos k))
low_half k m h b low (inr lt) = (
  omega (
    arith,
    leaf_pos_mono (m + 1) (2 ^ k + 0) (omega arith),
    leaf_pos-add-two_pow k 0 b (two_pow_pos k),
    leaf_pos-zero,
  ),
  inr lt,
)

-- In the upper half it fits, and what is left is the position within the rest.
high_half : (k r h : ℕ) → k < 64 → r < 2 ^ k → Fits (suc k) (2 ^ k + r) h → Fits k r h
high_half k r h b low (inl full) = inl (omega (arith, pow-suc 2 k))
high_half k r h b low (inr lt) = elim (dec_lt (r + 1) (2 ^ k)) [
  | yes inside ↦ inr (
      let assoc : 2 ^ k + r + 1 ≡ 2 ^ k + (r + 1) = omega arith in
      omega (
        arith,
        leaf_pos-add-two_pow k r b low,
        leaf_pos-add-two_pow k (r + 1) b inside,
        ap leaf_pos assoc,
      ))
  | no last ↦ inl (omega arith)
]

doubled : (k acc : ℕ) → acc * 2 * 2 ^ k ≡ acc * 2 ^ suc k
doubled k acc = omega (arith, ap (λ (t : ℕ). acc * t) (pow-suc 2 k))

pub full_pos : (k : ℕ) → 0 < 2 ^ suc k - 1
full_pos k = omega (arith, pow-suc 2 k, two_pow_pos k)

acc_small : (k m acc : ℕ) → acc * 2 ^ suc k + m < 2 ^ 64 → acc * 2 < 2 ^ 64
acc_small k m acc h = omega (arith, doubled k acc, mul-le-mul_left (acc * 2) (two_pow_pos k))

-- The loop reads the digits of `m` from the top, and leaves the height.
descends :
    (k fuel m h acc : ℕ)
    → k ≤ fuel
    → fuel ≤ 64
    → m < 2 ^ k
    → acc * 2 ^ k + m < 2 ^ 64
    → Fits k m h
    → peak_map_loop fuel (2 ^ k - 1) (leaf_pos m + h) acc ≡ (acc * 2 ^ k + m, h)
descends zero fuel m h acc kf fb mb ab fits =
    let e : m ≡ 0 = omega arith in rw (peak_map_loop_end, e) (ground (arith, leaf_pos-zero))
descends (suc k) zero m h acc kf fb mb ab fits = elim kf [ ]
descends (suc k) (suc fuel) m h acc kf fb mb ab fits =
    let scale = doubled k acc in
    elim (dec_lt m (2 ^ k)) [
      | yes low ↦
          let (small, fits') = low_half k m h (omega arith) low fits in
          peak_map_round_skip fuel (2 ^ suc k - 1) (leaf_pos m + h) acc (full_pos k) small
            (acc_small k m acc ab)
          ∙ rw (half_full k)
              (descends k fuel m h (acc * 2) (omega arith) (omega arith) low (omega arith) fits')
          ∙ ap (λ (t : ℕ). (t + m, h)) scale
      | no high ↦
          let r = m - 2 ^ k in
          let split : m ≡ 2 ^ k + r = omega arith in
          let below : r < 2 ^ k = omega (arith, pow-suc 2 k) in
          let fits' = high_half k r h (omega arith) below (rw split at fits) in
          let whole = leaf_pos-add-two_pow k r (omega arith) below in
          let rest : leaf_pos m + h - (2 ^ suc k - 1) ≡ leaf_pos r + h =
            omega (arith, whole, ap leaf_pos split) in
          let joined : (acc * 2 + 1) * 2 ^ k + r ≡ acc * 2 ^ suc k + m = omega arith in
          peak_map_round_take fuel (2 ^ suc k - 1) (leaf_pos m + h) acc (full_pos k)
            (omega (arith, whole, ap leaf_pos split)) (acc_small k m acc ab)
          ∙ rw (half_full k, rest)
              (descends k fuel r h (acc * 2 + 1) (omega arith) (omega arith) below (omega arith)
                fits')
          ∙ ap (λ (t : ℕ). (t, h)) joined
    ]

-- `ALL_ONES >> size.leading_zeros()` has as many ones as `size` has digits.
pub mask_table : (k : ℕ) → k < 64 → u64_max / 2 ^ ((64 - suc k) % 64) ≡ 2 ^ suc k - 1
unfolding all_below
mask_table k h =
    (==_iff _ _).0
      (all_below_sound (λ k. u64_max / 2 ^ ((64 - suc k) % 64) == 2 ^ suc k - 1) 64 refl k h)

bit_length-zero : (f : ℕ) → bit_length_from f 0 ≡ 0
unfolding bit_length_from
bit_length-zero zero = refl
bit_length-zero (suc f) = refl

last_digit : (f n : ℕ) → 0 < n → n / 2 ≡ 0 → bit_length_from (suc f) n ≡ 1
unfolding bit_length_from
last_digit f n pos half = ground (arith, ap (bit_length_from f) half, bit_length-zero f)

pub bit_length :
    (f n : ℕ)
    → 0 < n
    → n < 2 ^ f
    → (k : ℕ) × (bit_length_from f n ≡ suc k) × (k < f) × (n < 2 ^ suc k)
unfolding bit_length_from
bit_length zero n pos h = absurd (omega arith)
bit_length (suc f) n pos h = elim (dec_lt 0 (n / 2)) [
  | yes more ↦
      let (k, e, b, lt) = bit_length f (n / 2) more (omega (arith, pow-suc 2 f)) in
      (suc k, ground arith, omega arith, omega (arith, pow-suc 2 (suc k)))
  | no last ↦ (0, last_digit f n pos (omega arith), omega arith, omega arith)
]

-- The position `s` lies between the leaf `m` and the leaf after it: then `m` is the peak map of the
-- size `s`, and the next node's height is the distance from that leaf.
pub peak_map_height_lem :
    (m s : ℕ)
    → s < 2 ^ 64
    → leaf_pos m ≤ s
    → s < leaf_pos (m + 1)
    → peak_map_height s ≡ (m, s - leaf_pos m)
unfolding peak_map_height leading_zeros
peak_map_height_lem m zero b lo hi = ground (arith, le-leaf_pos m)
peak_map_height_lem m (suc s) b lo hi =
    let (k, digits, kb, lt) = bit_length 64 (suc s) (omega arith) b in
    let h = suc s - leaf_pos m in
    let size : leaf_pos m + h ≡ suc s = omega arith in
    let bound : m < 2 ^ suc k = omega (arith, le-leaf_pos m) in
    let run =
      descends (suc k) 64 m h 0 (omega arith) (omega arith) bound (omega (arith, le-leaf_pos m))
        (inr (omega arith)) in
    let positive : (suc s == 0) ≡ false = ground arith in
    rw (positive, digits, mask_table k kb) (rw size at run ∙ ap (λ (t : ℕ). (t, h)) (omega arith))
