-- ===== src/Pmmr/Leaves.antt =====
-- core/src/core/pmmr/pmmr.rs: the functions between leaf indices and positions, and the counts.
use grin.Prelude.{
  ℕ, zero, suc, ◌+◌, ◌-◌, ◌^◌, ◌≤◌, ◌<◌, ◌≡◌, ◌↔◌, ◌⊎◌, refl, ap, arith, true, some, none, ◌==◌,
  inl, inr, if◌then◌else◌, add64,
}
use mathlib.Core.Option.{some-injective}
use native.Mathlib.Decide.{dec_lt}
use grin.Pmmr.Ones.{
  leaf_pos, le-leaf_pos, leaf_pos-suc, leaf_pos_mono, insertion-eq-leaf_pos, locate,
}
use grin.Pmmr.Peaks.{peak_map_height_lem}
use grin.Pmmr.Index.{
  peak_map_height, insertion_to_pmmr_index, pmmr_leaf_to_insertion_index, n_leaves,
  round_up_to_leaf_pos, is_leaf, bintree_postorder_height,
}

-- How two indices compare, and with them the positions.
order :
    (n m : ℕ)
    → ((n ≤ m) × (leaf_pos n ≤ leaf_pos m)) ⊎ ((m + 1 ≤ n) × (leaf_pos (m + 1) ≤ leaf_pos n))
order n m = elim (dec_lt m n) [
  | yes p ↦ inr (omega arith, leaf_pos_mono (m + 1) n (omega arith))
  | no p ↦ inl (omega arith, leaf_pos_mono n m (omega arith))
]

-- The leaf before a position that lies between two leaves is the only one.
between : (n m : ℕ) → leaf_pos m ≤ leaf_pos n → leaf_pos n < leaf_pos (m + 1) → m ≡ n
between n m lo hi = omega (arith, order n m, order m n, leaf_pos-suc n)

-- A position as a leaf and a height above it.
pub record Place (s m h : ℕ) : Type 0 where
  pub position : s ≡ leaf_pos m + h
  pub next_leaf : leaf_pos m + h < leaf_pos (m + 1)
  pub computed : peak_map_height s ≡ (m, h)

pub place : (s : ℕ) → s < 2 ^ 64 → (m : ℕ) × (h : ℕ) × Place s m h
place s b =
    let (m, lo, hi) = locate s in
    (
      m,
      s - leaf_pos m,
      record {
        position = omega arith;
        next_leaf = omega arith;
        computed = peak_map_height_lem m s b lo hi;
      },
    )

index_iff :
    (m h n : ℕ)
    → leaf_pos m + h < leaf_pos (m + 1)
    → ((if h == 0 then some m else none) ≡ some n) ↔ (leaf_pos n ≡ leaf_pos m + h)
index_iff m zero n lt = (
  λ e. omega (arith, ap leaf_pos (some-injective m n e)),
  λ e. ap some (between n m (omega arith) (omega arith)),
)
index_iff m (suc h) n lt = (λ e. ground arith, λ e. absurd (omega (arith, order n m)))

count_iff :
    (m h i : ℕ)
    → m < 2 ^ 63
    → leaf_pos m + h < leaf_pos (m + 1)
    → (leaf_pos i < leaf_pos m + h) ↔ (i < (if h == 0 then m else add64 m 1))
count_iff m zero i b lt =
    (λ e. omega (arith, order m i), λ e. omega (arith, order m i, leaf_pos-suc i))
count_iff m (suc h) i b lt = (λ e. ground (arith, order i m), λ e. ground (arith, order i m))

-- A leaf has the height 0.
is_leaf-leaf_pos : (n : ℕ) → leaf_pos n < 2 ^ 64 → is_leaf (leaf_pos n) ≡ true
unfolding is_leaf bintree_postorder_height
is_leaf-leaf_pos n b =
    ground (arith, peak_map_height_lem n (leaf_pos n) b (omega arith) (leaf_pos-suc n))

-- The index of the first leaf at or after the position.
rounded :
    (m h : ℕ)
    → m < 2 ^ 62
    → leaf_pos m + h < leaf_pos (m + 1)
    → (r : ℕ) × ((if h == 0 then m else add64 m 1) ≡ r)
      × (r ≤ m + 1)
      × (leaf_pos m + h ≤ leaf_pos r)
      × ((i : ℕ) → leaf_pos m + h ≤ leaf_pos i → leaf_pos r ≤ leaf_pos i)
rounded m zero b lt = (m, refl, omega arith, omega arith, λ i le. omega arith)
rounded m (suc h) b lt =
    (m + 1, ground arith, omega arith, omega arith, λ i le. omega (arith, order i m))

module _ (s m h : ℕ) (p : Place s m h) where
  index_at : (n : ℕ) → (pmmr_leaf_to_insertion_index s ≡ some n) ↔ (leaf_pos n ≡ s)
  unfolding pmmr_leaf_to_insertion_index
  index_at n = rw (p.computed, p.position) (index_iff m h n p.next_leaf)

  count_at : (i : ℕ) → m < 2 ^ 63 → (leaf_pos i < s) ↔ (i < n_leaves s)
  unfolding n_leaves
  count_at i b = rw (p.computed, p.position) (count_iff m h i b p.next_leaf)

  round_up_at :
      m < 2 ^ 62
      → (r : ℕ) × (round_up_to_leaf_pos s ≡ leaf_pos r)
        × (r < 2 ^ 63)
        × (s ≤ leaf_pos r)
        × ((i : ℕ) → s ≤ leaf_pos i → leaf_pos r ≤ leaf_pos i)
  unfolding round_up_to_leaf_pos
  round_up_at b =
      let (r, e, up, after, least) = rounded m h b p.next_leaf in
      (
        r,
        rw (p.computed, e) (insertion-eq-leaf_pos r (omega arith)),
        omega arith,
        omega (arith, p.position),
        λ i le. least i (omega (arith, p.position)),
      )

-- A position below 2^63 is found to be that of the leaf `n`, for `n` below 2^63, exactly when the leaf
-- `n` stands there. (The positions of larger indices wrap around.)
pub leaf_index_iff :
    (pos0 n : ℕ)
    → pos0 < 2 ^ 63
    → n < 2 ^ 63
    → (pmmr_leaf_to_insertion_index pos0 ≡ some n) ↔ (insertion_to_pmmr_index n ≡ pos0)
leaf_index_iff pos0 n b nb =
    let (m, h, p) = place pos0 (omega arith) in
    rw (insertion-eq-leaf_pos n nb) (index_at pos0 m h p n)

-- For a size below 2^63, a leaf with an index below 2^63 stands before the size exactly when its index
-- is below the number of leaves. (The positions of larger indices wrap around.)
pub n_leaves_iff :
    (size i : ℕ)
    → size < 2 ^ 63
    → i < 2 ^ 63
    → (insertion_to_pmmr_index i < size) ↔ (i < n_leaves size)
n_leaves_iff size i b ib =
    let (m, h, p) = place size (omega arith) in
    rw (insertion-eq-leaf_pos i ib)
      (count_at size m h p i (omega (arith, le-leaf_pos m, p.position)))

-- When a leaf with an index below 2^62 stands at or after a position below 2^62, rounding up the
-- position gives a leaf, at or after the position and not after that one.
pub round_up_to_leaf_pos_least :
    (pos0 i : ℕ)
    → pos0 < 2 ^ 62
    → i < 2 ^ 62
    → pos0 ≤ insertion_to_pmmr_index i
    → (pos0 ≤ round_up_to_leaf_pos pos0)
      × (round_up_to_leaf_pos pos0 ≤ insertion_to_pmmr_index i)
      × (is_leaf (round_up_to_leaf_pos pos0) ≡ true)
round_up_to_leaf_pos_least pos0 i b ib le =
    let (m, h, p) = place pos0 (omega arith) in
    let (r, e, rb, after, least) =
      round_up_at pos0 m h p (omega (arith, le-leaf_pos m, p.position)) in
    let at : insertion_to_pmmr_index i ≡ leaf_pos i = insertion-eq-leaf_pos i (omega arith) in
    let le' : pos0 ≤ leaf_pos i = omega arith in
    let before = least i le' in
    (rw e after, omega arith, rw e (is_leaf-leaf_pos r (omega (arith, le-leaf_pos i, before))))
