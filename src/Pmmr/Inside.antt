-- ===== src/Pmmr/Inside.antt =====
-- core/src/core/pmmr/pmmr.rs, core/src/core/merkle_proof.rs: nodes inside of a range and outside of it.
use grin.Prelude.{
  ℕ, zero, suc, ◌+◌, ◌-◌, ◌*◌, ◌/◌, ◌^◌, ◌≤◌, ◌<◌, ◌≡◌, ap, arith, Bool, false, leb, none,
}
use native.Mathlib.Nat.{pow-suc, mul-le-mul_left}
use grin.Pmmr.Ones.{leaf_pos, leaf_pos_mono}
use grin.Pmmr.Digits.{div-two_pow}
use grin.Pmmr.Index.{family, is_left_sibling, peaks}
use grin.Pmmr.Nodes.{node_pos}
use grin.Pmmr.MerkleProof.{binary_search, is_sibling_first}
use grin.Pmmr.Push.{node_pos-newest}

-- A node over at least the first `n` leaves and one more stands outside of their range.
pub beyond :
    (k q n : ℕ) → n < (q + 1) * 2 ^ k → (q + 1) * 2 ^ k < 2 ^ 62 → leaf_pos n ≤ node_pos k q
beyond k q n over small =
    let m = (q + 1) * 2 ^ k - 1 in
    let newest = node_pos-newest k q m (omega arith) (omega arith) in
    let further = leaf_pos_mono n m (omega arith) in omega arith

pub first_inside :
    (size s p t : ℕ) (first : Bool)
    → family s ≡ (p, t)
    → binary_search (peaks size) s ≡ none
    → p < size
    → is_left_sibling t ≡ first
    → is_sibling_first size s ≡ first
unfolding is_sibling_first
first_inside size s p t first fam missing inside told =
    let below : leb size p ≡ false = ground arith in rw (missing, is_sibling_first, fam, below) told

-- A tree that covers `i` covers no more than the tree above it.
pub above_node :
    (d j h q top : ℕ) → j + d ≡ h → q / 2 ^ d ≡ top → (q + 1) * 2 ^ j ≤ (top + 1) * 2 ^ h
above_node zero j h q top e over =
    let same : j ≡ h = omega arith in
    let same' : q ≡ top = omega arith in rw (same, same') (omega arith)
above_node (suc d) j h q top e over =
    let up = above_node d (suc j) h (q / 2) top (omega arith) (rw (div-two_pow q d) at over) in
    let full = ap (λ (t : ℕ). (q / 2 + 1) * t) (pow-suc 2 j) in
    let less : q + 1 ≤ 2 * (q / 2 + 1) = omega arith in
    let more = mul-le-mul_left (2 ^ j) less in omega arith
