-- ===== src/Pmmr/Climb.antt =====
-- core/src/core/pmmr/pmmr.rs: family_branch, from a node up to the peak over it.
use grin.Prelude.{
  ℕ, zero, suc, ◌+◌, ◌-◌, ◌*◌, ◌/◌, ◌%◌, ◌^◌, ◌≤◌, ◌<◌, ◌≡◌, refl, ap, arith, [], ◌∷◌, Bool, true,
  false, leb, ltb, shl64,
}
use native.Mathlib.Nat.{pow-suc, pow-le-pow_right, mul-le-mul_left, div-div-eq-div-mul}
use grin.Pmmr.Ones.{two_pow_pos, le-leaf_pos}
use grin.Pmmr.Siblings.{Siblings, siblings, digit_clear, digit_set}
use grin.Pmmr.Index.{family_branch_loop, family, is_left_sibling}
use grin.Pmmr.Nodes.{node_pos, node_pos-right, node_pos-parent}
use grin.Pmmr.Push.{node_pos-newest}
use grin.Pmmr.Split.{node_between}

-- The nodes 2 * j and 2 * j + 1 of a height are the children of the node j above.
pub node_siblings :
    (h j : ℕ)
    → h < 61
    → (2 * j + 1) * 2 ^ h < 2 ^ 60
    → Siblings (node_pos h (2 * j)) (node_pos h (2 * j + 1)) (node_pos (suc h) j) h
node_siblings h j hb b =
    let pos = two_pow_pos h in
    let m = (2 * j + 1) * 2 ^ h - 1 in
    let small : 2 * j * 1 ≤ 2 * j * 2 ^ h = mul-le-mul_left (2 * j) pos in
    let more : 1 ≤ (2 * j + 1) * 2 ^ h = omega arith in
    let last : m + 1 ≡ (2 * j + 1) * 2 ^ h = omega arith in
    let at = node_pos-newest h (2 * j) m (omega arith) (omega arith) in
    let right = node_pos-right h j (omega arith) in
    let up = node_pos-parent h j (omega arith) in
    let r : node_pos h (2 * j) + 2 * 2 ^ h - 1 ≡ node_pos h (2 * j + 1) = omega arith in
    let p : node_pos h (2 * j) + 2 * 2 ^ h ≡ node_pos (suc h) j = omega arith in
    rw (r, p) at (siblings m h j (omega arith) hb last (node_pos h (2 * j)) at)

-- Up from a left child, and up from a right child.
module _ (m size h s : ℕ) (b : 2 ^ h < 2 ^ 61) where
  shl_one : shl64 (2 ^ h) 1 ≡ 2 ^ suc h
  shl_one = omega (arith, pow-suc 2 h)

  loop_left :
      (fuel : ℕ)
      → m / 2 ^ h % 2 ≡ 0
      → s + 2 * 2 ^ h < 2 ^ 64
      → s + 2 * 2 ^ h < size
      → family_branch_loop (suc fuel) m size (2 ^ h) s
        ≡ (s + 2 * 2 ^ h, s + 2 * 2 ^ h - 1)
          ∷ family_branch_loop fuel m size (2 ^ suc h) (s + 2 * 2 ^ h)
  unfolding family_branch_loop
  loop_left fuel digit room inside =
      let pos = two_pow_pos h in
      let peak : (2 * 2 ^ h) % 2 ^ 64 ≡ 2 * 2 ^ h = omega arith in
      let parent : (s + 2 * 2 ^ h) % 2 ^ 64 ≡ s + 2 * 2 ^ h = omega arith in
      let sibling : (s + 2 * 2 ^ h + 2 ^ 64 - 1) % 2 ^ 64 ≡ s + 2 * 2 ^ h - 1 = omega arith in
      let next : (s + 1) % 2 ^ 64 ≡ s + 1 = omega arith in
      let below : leb size (s + 2 * 2 ^ h) ≡ false = ground arith in
      let here : ltb (s + 1) size ≡ true = ground arith in
      rw (digit_clear m h digit, peak, parent, sibling, next, below, here, shl_one) refl

  loop_right :
      (fuel : ℕ)
      → m / 2 ^ h % 2 ≡ 1
      → s + 2 < 2 ^ 64
      → 2 * 2 ^ h ≤ s + 1
      → s + 1 < size
      → family_branch_loop (suc fuel) m size (2 ^ h) s
        ≡ (s + 1, s + 1 - 2 * 2 ^ h) ∷ family_branch_loop fuel m size (2 ^ suc h) (s + 1)
  unfolding family_branch_loop
  loop_right fuel digit room le inside =
      let peak : (2 * 2 ^ h) % 2 ^ 64 ≡ 2 * 2 ^ h = omega arith in
      let parent : (s + 1) % 2 ^ 64 ≡ s + 1 = omega arith in
      let sibling : (s + 1 + 2 ^ 64 - 2 * 2 ^ h) % 2 ^ 64 ≡ s + 1 - 2 * 2 ^ h = omega arith in
      let below : leb size (s + 1) ≡ false = ground arith in
      let here : ltb (s + 1) size ≡ true = ground arith in
      rw (digit_set m h digit, peak, parent, sibling, below, here, shl_one) refl

  -- A left child whose parent stands outside is the last.
  pub loop_top :
      (fuel : ℕ)
      → m / 2 ^ h % 2 ≡ 0
      → s + 2 * 2 ^ h < 2 ^ 64
      → size ≤ s + 2 * 2 ^ h
      → family_branch_loop fuel m size (2 ^ h) s ≡ []
  unfolding family_branch_loop
  loop_top zero digit room outside = refl
  loop_top (suc fuel) digit room outside =
      let peak : (2 * 2 ^ h) % 2 ^ 64 ≡ 2 * 2 ^ h = omega arith in
      let parent : (s + 2 * 2 ^ h) % 2 ^ 64 ≡ s + 2 * 2 ^ h = omega arith in
      let above : leb size (s + 2 * 2 ^ h) ≡ true = ground arith in
      rw (digit_clear m h digit, peak, parent, above) (ground arith)

-- From the node q of the height j, which stands over the leaf `i`, to its parent r.
pub record Step (i size j q r sib : ℕ) (first : Bool) : Type 0 where
  pub loop :
      (fuel : ℕ)
      → family_branch_loop (suc fuel) i size (2 ^ j) (node_pos j q)
        ≡ (node_pos (suc j) r, node_pos j sib)
          ∷ family_branch_loop fuel i size (2 ^ suc j) (node_pos (suc j) r)
  pub up : node_pos j q < node_pos (suc j) r
  pub over : i / 2 ^ suc j ≡ r
  pub inside : (sib + 1) * 2 ^ j ≤ (r + 1) * 2 ^ suc j
  pub told : is_left_sibling (node_pos j sib) ≡ first
  pub family_here : family (node_pos j q) ≡ (node_pos (suc j) r, node_pos j sib)

module _ (i size j r : ℕ) (jb : j < 60) (b : (2 * r + 1) * 2 ^ j < 2 ^ 60)
    (in_size : node_pos (suc j) r < size) where
  small_peak_le : 2 ^ j < 2 ^ 60
  small_peak_le =
      let top = pow-le-pow_right {n = 2} (omega arith) {i = suc j} {j = 60} (omega arith) in
      let twice = pow-suc 2 j in omega (arith, two_pow_pos j)

  small_peak : 2 ^ j < 2 ^ 61
  small_peak = let less = small_peak_le in omega arith

  pub halved : (q : ℕ) → i / 2 ^ j ≡ q → q / 2 ≡ r → i / 2 ^ suc j ≡ r
  halved q e e' = rw (pow-suc 2 j, ← (div-div-eq-div-mul i (2 ^ j) 2), e) e'

  small_index : r < 2 ^ 63
  small_index = let pos = mul-le-mul_left (2 * r + 1) (two_pow_pos j) in omega arith

  small_top : node_pos (suc j) r < 2 ^ 62
  small_top =
      let full = ap (λ (t : ℕ). (r + 1) * t) (pow-suc 2 j) in
      let end : (r + 1) * 2 ^ suc j < 2 ^ 61 = let top = small_peak_le in omega arith in
      let (_, high) = node_between (suc j) r (omega arith) in
      let low = le-leaf_pos ((r + 1) * 2 ^ suc j) in omega arith

  pub Step-left : i / 2 ^ j ≡ 2 * r → Step i size j (2 * r) r (2 * r + 1) false
  Step-left e =
      let sib = node_siblings j r (omega arith) b in
      let across = node_pos-right j r small_index in
      let last = sib.last in
      let first = sib.first in
      let top = small_top in
      let p : node_pos j (2 * r) + 2 * 2 ^ j ≡ node_pos (suc j) r = omega arith in
      let t : node_pos j (2 * r) + 2 * 2 ^ j - 1 ≡ node_pos j (2 * r + 1) = omega arith in
      record {
        loop = λ fuel.
            rw (t, p) at
              (loop_left i size j (node_pos j (2 * r)) small_peak fuel (rw e (omega arith))
                (omega arith) (omega arith));
        up = omega arith;
        over = halved (2 * r) e (omega arith);
        inside = omega (arith, ap (λ (t : ℕ). (r + 1) * t) (pow-suc 2 j));
        told = sib.right;
        family_here = sib.family_left;
      }

  pub Step-right : i / 2 ^ j ≡ 2 * r + 1 → Step i size j (2 * r + 1) r (2 * r) true
  Step-right e =
      let sib = node_siblings j r (omega arith) b in
      let across = node_pos-right j r small_index in
      let last = sib.last in
      let first = sib.first in
      let top = small_top in
      let t : node_pos j (2 * r + 1) + 1 - 2 * 2 ^ j ≡ node_pos j (2 * r) = omega arith in
      record {
        loop = λ fuel.
            rw (t, last) at
              (loop_right i size j (node_pos j (2 * r + 1)) small_peak fuel (rw e (omega arith))
                (omega arith) (omega arith) (omega arith));
        up = omega arith;
        over = halved (2 * r + 1) e (omega arith);
        inside = omega (arith, ap (λ (t : ℕ). (r + 1) * t) (pow-suc 2 j), two_pow_pos j);
        told = sib.left;
        family_here = sib.family_right;
      }
