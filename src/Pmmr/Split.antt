-- ===== src/Pmmr/Split.antt =====
-- core/src/core/pmmr/pmmr.rs: the peaks of a range, split at the one over a given leaf.
use grin.Prelude.{
  ℕ, zero, suc, ◌+◌, ◌-◌, ◌*◌, ◌^◌, ◌≤◌, ◌<◌, ◌≡◌, refl, ap, inl, inr, arith, List, [], ◌∷◌, ◌++◌,
  length, false, Bool-cases, leb, All,
}
use native.Mathlib.Nat.{pow-suc, pow-le-pow_right}
use native.Mathlib.Decide.{dec_lt, dec_le}
use grin.Pmmr.Ones.{leaf_pos, leaf_pos-suc, leaf_pos_mono}
use grin.Pmmr.Nodes.{node_pos, leaf_pos_shift}
use grin.Pmmr.Tops.{tops}

-- A node stands between the first leaf below it and the leaf behind it.
pub node_between :
    (k q : ℕ)
    → (q + 1) * 2 ^ k < 2 ^ 62
    → (leaf_pos (q * 2 ^ k) ≤ node_pos k q) × (node_pos k q < leaf_pos ((q + 1) * 2 ^ k))
unfolding node_pos
node_between k q h =
    let here = leaf_pos_shift k q (omega arith) in
    let next = leaf_pos_shift k (q + 1) (omega arith) in
    let rises = leaf_pos-suc q in (omega arith, omega arith)

tops_from :
    (k m r b : ℕ)
    → m * 2 ^ k + r < 2 ^ 62
    → b < leaf_pos (m * 2 ^ k)
    → All (λ (x : ℕ). b < x) (tops k m r)
unfolding tops
tops_from zero m r b h le = tt
tops_from (suc k) m r b h le =
    let twice : m * 2 ^ suc k ≡ 2 * m * 2 ^ k =
      omega (arith, ap (λ (t : ℕ). m * t) (pow-suc 2 k)) in
    let same = ap leaf_pos twice in
    elim (Bool-cases (leb (2 ^ k) r)) [
      | inl fits ↦
          let room : 2 ^ k ≤ r = ground arith in
          let (low, _) = node_between k (2 * m) (omega arith) in
          let further = leaf_pos_mono (2 * m * 2 ^ k) ((2 * m + 1) * 2 ^ k) (omega arith) in
          rw fits (omega arith, tops_from k (2 * m + 1) (r - 2 ^ k) b (omega arith) (omega arith))
      | inr low ↦ rw low (tops_from k (2 * m) r b (omega arith) (omega arith))
    ]

pub tops_below :
    (k m r b : ℕ)
    → m * 2 ^ k + r < 2 ^ 62
    → leaf_pos (m * 2 ^ k + r) ≤ b
    → All (λ (x : ℕ). x < b) (tops k m r)
unfolding tops
tops_below zero m r b h le = tt
tops_below (suc k) m r b h le =
    let twice : m * 2 ^ suc k ≡ 2 * m * 2 ^ k =
      omega (arith, ap (λ (t : ℕ). m * t) (pow-suc 2 k)) in
    elim (Bool-cases (leb (2 ^ k) r)) [
      | inl fits ↦
          let room : 2 ^ k ≤ r = ground arith in
          let (_, high) = node_between k (2 * m) (omega arith) in
          let further = leaf_pos_mono ((2 * m + 1) * 2 ^ k) (m * 2 ^ suc k + r) (omega arith) in
          let same : m * 2 ^ suc k + r ≡ (2 * m + 1) * 2 ^ k + (r - 2 ^ k) = omega arith in
          let same' = ap leaf_pos same in
          rw fits (omega arith, tops_below k (2 * m + 1) (r - 2 ^ k) b (omega arith) (omega arith))
      | inr low ↦
          let same = ap (λ (t : ℕ). leaf_pos (t + r)) twice in
          rw low (tops_below k (2 * m) r b (omega arith) (omega arith))
    ]

-- Digits above the highest one add no peaks.
pub tops_more : (d k n : ℕ) → n < 2 ^ k → k ≤ d → tops d 0 n ≡ tops k 0 n
unfolding tops
tops_more zero k n h le = let e : k ≡ 0 = omega arith in rw e refl
tops_more (suc d) k n h le = elim (dec_le k d) [
  | yes more ↦
      let below : (leb (2 ^ d) n) ≡ false =
        ground (arith, pow-le-pow_right {n = 2} (omega arith) more) in
      rw below (tops_more d k n h more)
  | no top ↦ let e : suc d ≡ k = omega arith in ap (λ (t : ℕ). tops t 0 n) e
]

-- The peak of height `h` and even index over the leaf `i`, among those of the `r` leaves behind `m * 2 ^ k`.
pub record SplitAt (k m r i : ℕ) : Type 0 where
  pub h : ℕ
  pub half : ℕ
  pub left : List ℕ
  pub right : List ℕ
  pub split : tops k m r ≡ left ++ node_pos h (2 * half) ∷ right
  pub below : All (λ (x : ℕ). x < leaf_pos (2 * half * 2 ^ h)) left
  pub above : All (λ (x : ℕ). node_pos h (2 * half) < x) right
  pub from : 2 * half * 2 ^ h ≤ i
  pub to : i < (2 * half + 1) * 2 ^ h
  pub base : m * 2 ^ k ≤ 2 * half * 2 ^ h
  pub inside : (2 * half + 1) * 2 ^ h ≤ m * 2 ^ k + r
  pub outside : m * 2 ^ k + r < (2 * half + 2) * 2 ^ h
  pub few : length left + h < k

pub split_tops :
    (k m r i : ℕ)
    → m * 2 ^ k + r < 2 ^ 62
    → r < 2 ^ k
    → m * 2 ^ k ≤ i
    → i < m * 2 ^ k + r
    → SplitAt k m r i
unfolding tops
split_tops zero m r i h small lo hi = absurd (omega arith)
split_tops (suc k) m r i h small lo hi =
    let full = pow-suc 2 k in
    let twice : m * 2 ^ suc k ≡ 2 * m * 2 ^ k =
      omega (arith, ap (λ (t : ℕ). m * t) (pow-suc 2 k)) in
    elim (Bool-cases (leb (2 ^ k) r)) [
      | inr low ↦
          let s =
            split_tops k (2 * m) r i (omega arith) (ground arith) (omega arith) (omega arith) in
          record {
            h = s.h;
            half = s.half;
            left = s.left;
            right = s.right;
            split = rw low (s.split);
            below = s.below;
            above = s.above;
            from = s.from;
            to = s.to;
            base = let x = s.base in omega arith;
            inside = let x = s.inside in omega arith;
            outside = let x = s.outside in omega arith;
            few = let x = s.few in omega arith;
          }
      | inl fits ↦
          let room : 2 ^ k ≤ r = ground arith in
          let (_, high) = node_between k (2 * m) (omega arith) in
          elim (dec_lt i ((2 * m + 1) * 2 ^ k)) [
            | yes here ↦ record {
              h = k;
              half = m;
              left = [];
              right = tops k (2 * m + 1) (r - 2 ^ k);
              split = rw fits refl;
              below = tt;
              above =
                  tops_from k (2 * m + 1) (r - 2 ^ k) (node_pos k (2 * m)) (omega arith)
                    (omega arith);
              from = omega arith;
              to = here;
              base = omega arith;
              inside = omega arith;
              outside = omega arith;
              few = omega arith;
            }
            | no later ↦
                let s =
                  split_tops k (2 * m + 1) (r - 2 ^ k) i (omega arith) (omega arith) (omega arith)
                    (omega arith) in
                let from_here = s.base in
                let further =
                  leaf_pos_mono ((2 * m + 1) * 2 ^ k) (2 * s.half * 2 ^ s.h) from_here in
                record {
                  h = s.h;
                  half = s.half;
                  left = node_pos k (2 * m) ∷ s.left;
                  right = s.right;
                  split = rw fits (ap (λ (t : List ℕ). node_pos k (2 * m) ∷ t) (s.split));
                  below = (omega arith, s.below);
                  above = s.above;
                  from = s.from;
                  to = s.to;
                  base = omega arith;
                  inside = let x = s.inside in omega arith;
                  outside = let x = s.outside in omega arith;
                  few = let x = s.few in omega arith;
                }
          ]
    ]
