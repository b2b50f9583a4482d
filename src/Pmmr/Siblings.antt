-- ===== src/Pmmr/Siblings.antt =====
-- core/src/core/pmmr/pmmr.rs: the two children of a node in a Merkle mountain range, and what family
-- and is_left_sibling compute at them.
use grin.Prelude.{
  ℕ, suc, ◌+◌, ◌-◌, ◌*◌, ◌/◌, ◌%◌, ◌^◌, ◌≤◌, ◌<◌, ◌≡◌, ◌⊎◌, inl, inr, refl, ap, ◌∙◌, arith, true,
  false, bit_and, shl64, ◌==◌, count_ones, Bool-cases,
}
use grin.Prelude.Bits.{bit_and-two_pow}
use native.Mathlib.Nat.{pow-suc, pow-le-pow_right, le-div_iff_mul-le, div-lt_iff_lt-mul}
use native.Mathlib.Decide.{dec_lt}
use grin.Pmmr.Ones.{two_pow_pos, leaf_pos, ones-le, le-leaf_pos, locate}
use grin.Pmmr.Peaks.{peak_map_height_lem}
use grin.Pmmr.Digits.{ones-set, ends_in_ones, far_from_next}
use grin.Pmmr.Index.{peak_map_height, family, is_left_sibling, bintree_postorder_height}

small_two_pow : (h : ℕ) → h < 63 → 2 ^ h ≤ 2 ^ 62
small_two_pow h b =
    let le : h ≤ 62 = omega arith in let two : 0 < 2 = omega arith in pow-le-pow_right two le

-- The node of the height `h` over the leaf `m`, whose index ends in `h` ones.
node :
    (s m h q : ℕ)
    → s ≡ leaf_pos m + h
    → m < 2 ^ 62
    → h < 63
    → m + 1 ≡ (q + 1) * 2 ^ h
    → peak_map_height s ≡ (m, h)
unfolding leaf_pos count_ones
node s m h q at b hb e =
    let far = far_from_next h 64 m q (omega arith) e in
    let le = ones-le 64 m in
    let le_next = ones-le 64 (m + 1) in
    let lo : leaf_pos m ≤ s = omega arith in
    let over : s - leaf_pos m ≡ h = omega arith in
    peak_map_height_lem m s (omega arith) lo (omega arith) ∙ ap (λ (t : ℕ). (m, t)) over

pub one_shifted : (h : ℕ) → h < 63 → shl64 1 h ≡ 2 ^ h
one_shifted h b =
    let amount : h % 64 ≡ h = omega arith in rw amount (omega (arith, small_two_pow h b))

pub digit_clear : (m h : ℕ) → m / 2 ^ h % 2 ≡ 0 → (bit_and m (2 ^ h) == 0) ≡ true
digit_clear m h d = rw (bit_and-two_pow h m, d) (ground arith)

pub digit_set : (m h : ℕ) → m / 2 ^ h % 2 ≡ 1 → (bit_and m (2 ^ h) == 0) ≡ false
digit_set m h d = rw (bit_and-two_pow h m, d) (ground (arith, two_pow_pos h))

pair_eq : {a b c d : ℕ} → a ≡ c → b ≡ d → Path (ℕ × ℕ) (a, b) (c, d)
pair_eq p q = cc (p, q)

module _ (s m h t : ℕ) (e : peak_map_height s ≡ (m, h)) (te : shl64 1 h ≡ t) where
  height_at : bintree_postorder_height s ≡ h
  unfolding bintree_postorder_height
  height_at = ap (λ (r : ℕ × ℕ). r.1) e

  -- A digit 0 in the place of the height: a left child.
  left_at :
      (bit_and m t == 0) ≡ true
      → s + 2 * t < 2 ^ 64
      → 0 < t
      → (family s ≡ (s + 2 * t, s + 2 * t - 1)) × (is_left_sibling s ≡ true)
  unfolding family is_left_sibling
  left_at d b pos = rw (e, te, d) (pair_eq (omega arith) (omega arith), refl)

  -- A digit 1: a right child.
  right_at :
      (bit_and m t == 0) ≡ false
      → s < 2 ^ 63
      → 2 * t ≤ s + 1
      → (family s ≡ (s + 1, s + 1 - 2 * t)) × (is_left_sibling s ≡ false)
  unfolding family is_left_sibling
  right_at d b le = rw (e, te, d) (pair_eq (omega arith) (omega arith), refl)

-- The children `l` and `r` of the node `p`, all that the functions say of them.
pub record Siblings (l r p h : ℕ) : Type 0 where
  pub family_left : family l ≡ (p, r)
  pub family_right : family r ≡ (p, l)
  pub first : l < r
  pub last : r + 1 ≡ p
  pub left : is_left_sibling l ≡ true
  pub right : is_left_sibling r ≡ false
  pub height_left : bintree_postorder_height l ≡ h
  pub height_right : bintree_postorder_height r ≡ h
  pub height_parent : bintree_postorder_height p ≡ h + 1

quotient : (q t m : ℕ) → 0 < t → m + 1 ≡ (q + 1) * t → m / t ≡ q
quotient q t m pos e =
    let lo : q ≤ m / t = (le-div_iff_mul-le pos).1 (omega arith) in
    let hi : m / t < q + 1 = (div-lt_iff_lt-mul pos).1 (omega arith) in omega arith

-- The left one stands over the leaf `m`, the right one over the leaf `m + 2 ^ h`.
module _ (m h q : ℕ) (b : m < 2 ^ 60) (hb : h < 61) (e : m + 1 ≡ (2 * q + 1) * 2 ^ h) where
  digit_at : m / 2 ^ h % 2 ≡ 0
  digit_at = omega (arith, quotient (2 * q) (2 ^ h) m (two_pow_pos h) e)

  digit_next : (m + 2 ^ h) / 2 ^ h % 2 ≡ 1
  digit_next = omega (arith, quotient (2 * q + 1) (2 ^ h) (m + 2 ^ h) (two_pow_pos h) (omega arith))

  size_le : 2 ^ h ≤ m + 1
  size_le = omega (arith, e)

  leaf_pos_next : leaf_pos (m + 2 ^ h) ≡ leaf_pos m + 2 * 2 ^ h - 1
  unfolding leaf_pos count_ones
  leaf_pos_next = omega (arith, ones-set h 64 m digit_at (omega arith), ones-le 64 m, two_pow_pos h)

  pub siblings : (l : ℕ) → l ≡ leaf_pos m + h → Siblings l (l + 2 * 2 ^ h - 1) (l + 2 * 2 ^ h) h
  siblings l at =
      let pos = two_pow_pos h in
      let small = le-leaf_pos m in
      let le = size_le in
      let lp = leaf_pos_next in
      let twice = pow-suc 2 h in
      let at_right : l + 2 * 2 ^ h - 1 ≡ leaf_pos (m + 2 ^ h) + h = omega arith in
      let at_parent : l + 2 * 2 ^ h ≡ leaf_pos (m + 2 ^ h) + suc h = omega arith in
      let here = node l m h (2 * q) at (omega arith) (omega arith) e in
      let there =
        node (l + 2 * 2 ^ h - 1) (m + 2 ^ h) h (2 * q + 1) at_right (omega arith) (omega arith)
          (omega arith) in
      let above =
        node (l + 2 * 2 ^ h) (m + 2 ^ h) (suc h) q at_parent (omega arith) (omega arith)
          (omega (arith, ap (λ (t : ℕ). (q + 1) * t) twice)) in
      let one = one_shifted h (omega arith) in
      let (fl, sl) = left_at l m h (2 ^ h) here one (digit_clear m h digit_at) (omega arith) pos in
      let (fr, sr) =
        right_at (l + 2 * 2 ^ h - 1) (m + 2 ^ h) h (2 ^ h) there one
          (digit_set (m + 2 ^ h) h digit_next) (omega arith) (omega arith) in
      record {
        family_left = fl;
        family_right = fr ∙ pair_eq (omega arith) (omega arith);
        first = omega arith;
        last = omega arith;
        left = sl;
        right = sr;
        height_left = height_at l m h (2 ^ h) here one;
        height_right = height_at (l + 2 * 2 ^ h - 1) (m + 2 ^ h) h (2 ^ h) there one;
        height_parent =
            height_at (l + 2 * 2 ^ h) (m + 2 ^ h) (suc h) (2 ^ suc h) above
              (one_shifted (suc h) (omega arith))
            ∙ omega arith;
      }

height_bound : (m h q : ℕ) → m < 2 ^ 60 → m + 1 ≡ (q + 1) * 2 ^ h → h < 61
height_bound m h q b e = elim (dec_lt h 61) [
  | yes p ↦ p
  | no p ↦
      let le : 61 ≤ h = omega arith in
      let two : 0 < 2 = omega arith in
      let big : 2 ^ 61 ≤ 2 ^ h = pow-le-pow_right two le in absurd (omega arith)
]

-- Which child a node is, is told by the number of the trees of its height before it.
right_child :
    (s m h j : ℕ)
    → s ≡ leaf_pos m + h
    → m < 2 ^ 60
    → h < 61
    → m + 1 ≡ (2 * j + 1 + 1) * 2 ^ h
    → (l : ℕ) × (r : ℕ) × (p : ℕ) × Siblings l r p h × (s ≡ r)
right_child s m h j at b hb e =
    let before : m - 2 ^ h + 1 ≡ (2 * j + 1) * 2 ^ h = omega arith in
    let l = leaf_pos (m - 2 ^ h) + h in
    let same : m - 2 ^ h + 2 ^ h ≡ m = omega arith in
    let next = leaf_pos_next (m - 2 ^ h) h j (omega arith) hb before in
    let next' : leaf_pos m ≡ leaf_pos (m - 2 ^ h) + 2 * 2 ^ h - 1 = rw same at next in
    let built = siblings (m - 2 ^ h) h j (omega arith) hb before l refl in
    (l, l + 2 * 2 ^ h - 1, l + 2 * 2 ^ h, built, omega (arith, two_pow_pos h))

which_child :
    (s m h q : ℕ)
    → s ≡ leaf_pos m + h
    → m < 2 ^ 60
    → h < 61
    → m + 1 ≡ (q + 1) * 2 ^ h
    → (l : ℕ) × (r : ℕ) × (p : ℕ) × Siblings l r p h × ((s ≡ l) ⊎ (s ≡ r))
which_child s m h q at b hb e = elim (Bool-cases (q % 2 == 0)) [
  | inl even ↦
      let half : q ≡ 2 * (q / 2) = ground arith in
      let e' : m + 1 ≡ (2 * (q / 2) + 1) * 2 ^ h = rw half at e in
      (s, s + 2 * 2 ^ h - 1, s + 2 * 2 ^ h, siblings m h (q / 2) b hb e' s at, inl refl)
  | inr odd ↦
      let half : q ≡ 2 * (q / 2) + 1 = ground arith in
      let e' : m + 1 ≡ (2 * (q / 2) + 1 + 1) * 2 ^ h = rw half at e in
      let (l, r, p, sib, is_r) = right_child s m h (q / 2) at b hb e' in (l, r, p, sib, inr is_r)
]

-- Every node is the left or the right child of another.
pub as_sibling :
    (s : ℕ)
    → s < 2 ^ 60
    → (l : ℕ) × (r : ℕ) × (p : ℕ) × (h : ℕ) × Siblings l r p h × ((s ≡ l) ⊎ (s ≡ r))
unfolding leaf_pos count_ones
as_sibling s b =
    let (m, lo, hi) = locate s in
    let h = s - leaf_pos m in
    let le = ones-le 64 m in
    let le_next = ones-le 64 (m + 1) in
    let (q, e) = ends_in_ones h 64 m (omega arith) (omega arith) in
    let mb : m < 2 ^ 60 = omega arith in
    let (l, r, p, sib, side) = which_child s m h q (omega arith) mb (height_bound m h q mb e) e in
    (l, r, p, h, sib, side)
