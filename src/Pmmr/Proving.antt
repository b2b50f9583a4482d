-- ===== src/Pmmr/Proving.antt =====
-- core/src/core/pmmr/pmmr.rs, core/src/core/merkle_proof.rs: the part of a Merkle proof below the peak.
use grin.Prelude.{
  ℕ, zero, suc, ◌+◌, ◌*◌, ◌/◌, ◌%◌, ◌^◌, ◌≤◌, ◌<◌, ◌≡◌, refl, ap, sym, ◌∙◌, inl, inr, arith, List,
  ◌∷◌, ◌++◌, Bool, true, false, Bool-cases, leb, ◌==◌, none, ok,
}
use grin.Prelude.Sorting.{All-map}
use mathlib.Core.Path.{subst}
use native.Mathlib.Nat.{pow-suc, pow-le-pow_right, mul-le-mul_left}
use grin.Pmmr.Ones.{leaf_pos, leaf_pos_mono, two_pow_pos, le-leaf_pos}
use grin.Pmmr.Digits.{div-two_pow}
use grin.Pmmr.Index.{family, family_branch_loop, peaks}
use grin.Pmmr.Nodes.{node_pos, node_pos-right}
use grin.Pmmr.Reference.{tree}
use grin.Pmmr.Range.{Pmmr, read_all, from_file, siblings, last_parent}
use grin.Pmmr.MerkleProof.{binary_search, is_sibling_first, node_hash, parent_of, verify_path}
use grin.Pmmr.Reads.{read_all-some}
use grin.Pmmr.Root.{Built}
use grin.Pmmr.Validate.{read_node}
use grin.Pmmr.Split.{SplitAt, node_between}
use grin.Pmmr.Inside.{beyond, first_inside, above_node}
use grin.Pmmr.Climb.{Step, node_siblings, loop_top, Step-left, Step-right, halved}
use grin.Pmmr.Bagging.{binary_search_after, binary_search_before}

module _ {T : Type 0} (hash_with_index : T → ℕ → ℕ) (hash_children : ℕ → ℕ → ℕ → ℕ)
    (leaf : ℕ → T) where
  abbrev tree_of : ℕ → ℕ → ℕ
  tree_of = tree hash_with_index hash_children leaf

  -- All that the proof of a node gives, once its peak is known to verify.
  pub record Climbed (n i : ℕ) (p : Pmmr T) (h top fuel j q : ℕ) : Type 0 where
    pub last :
        last_parent (node_pos j q) (family_branch_loop fuel i (leaf_pos n) (2 ^ j) (node_pos j q))
        ≡ node_pos h top
    pub up : node_pos j q ≤ node_pos h top
    pub low : top * 2 ^ h ≤ q * 2 ^ j
    pub verified :
        (rest : List ℕ) (root : ℕ) (e : ℕ → ℕ)
        → e (node_pos j q) ≡ tree_of j q
        → ((e' : ℕ → ℕ)
            → e' (node_pos h top) ≡ tree_of h top
            → verify_path hash_children (leaf_pos n) root e' (node_pos h top) rest ≡ ok tt)
        → verify_path hash_children (leaf_pos n) root e (node_pos j q) (
            read_all
              (from_file p)
              (siblings (family_branch_loop fuel i (leaf_pos n) (2 ^ j) (node_pos j q)))
            ++ rest)
          ≡ ok tt

  module _ (n i : ℕ) (small : n < 2 ^ 58) (p : Pmmr T)
      (built : Built hash_with_index hash_children leaf n p) (s : SplitAt 58 0 n i)
      (split : peaks (leaf_pos n) ≡ s.left ++ node_pos (s.h) (2 * s.half) ∷ s.right) where
    climb_top :
        (fuel : ℕ)
        → i / 2 ^ s.h ≡ 2 * s.half
        → Climbed n i p (s.h) (2 * s.half) fuel (s.h) (2 * s.half)
    unfolding read_all
    climb_top fuel e =
        let few = s.few in
        let inside = s.inside in
        let outside = s.outside in
        let pos = two_pow_pos (s.h) in
        let top = pow-le-pow_right {n = 2} (omega arith) {i = s.h} {j = 57} (omega arith) in
        let index = mul-le-mul_left (2 * s.half + 1) pos in
        let full = ap (λ (t : ℕ). (s.half + 1) * t) (pow-suc 2 (s.h)) in
        let sib = node_siblings (s.h) (s.half) (omega arith) (omega arith) in
        let last = sib.last in
        let across = node_pos-right (s.h) (s.half) (omega arith) in
        let reach = beyond (suc (s.h)) (s.half) n (omega arith) (omega arith) in
        let (_, high) = node_between (s.h) (2 * s.half) (omega arith) in
        let far = le-leaf_pos ((2 * s.half + 1) * 2 ^ s.h) in
        let empty =
          loop_top i (leaf_pos n) (s.h) (node_pos (s.h) (2 * s.half)) (omega arith) fuel
            (rw e (omega arith)) (omega arith) (omega arith) in
        record {
          last = rw empty refl;
          up = omega arith;
          low = omega arith;
          verified = λ rest root e he k. rw empty (k e he);
        }

    verify_next :
        (size root : ℕ) (e : ℕ → ℕ) (at up sib : ℕ) (first : Bool) (path : List ℕ)
        → is_sibling_first size at ≡ first
        → (family at).0 ≡ up
        → at < size
        → verify_path hash_children size root (parent_of hash_children first sib (e at)) up path
          ≡ ok tt
        → verify_path hash_children size root e at (sib ∷ path) ≡ ok tt
    unfolding verify_path node_hash
    verify_next size root e at up sib first path is_first fam inside v =
        let below : leb size at ≡ false = ground arith in rw (is_first, fam, below) v

    not_peak :
        (j q : ℕ)
        → (q + 1) * 2 ^ j < 2 ^ 62
        → 2 * s.half * 2 ^ s.h ≤ q * 2 ^ j
        → node_pos j q < node_pos (s.h) (2 * s.half)
        → binary_search (peaks (leaf_pos n)) (node_pos j q) ≡ none
    not_peak j q fits low up =
        let here = node_pos j q in
        let (first, _) = node_between j q fits in
        let before = leaf_pos_mono (2 * s.half * 2 ^ s.h) (q * 2 ^ j) low in
        ap (λ (t : List ℕ). binary_search t here) split
        ∙ binary_search_after (s.left) (node_pos (s.h) (2 * s.half) ∷ s.right) here
            (All-map (λ x. x < leaf_pos (2 * s.half * 2 ^ s.h)) (λ x. x < here) (s.left)
              (λ x lt. omega arith) (s.below))
            (binary_search_before (node_pos (s.h) (2 * s.half) ∷ s.right) here (
              up,
              All-map (λ x. node_pos (s.h) (2 * s.half) < x) (λ x. here < x) (s.right)
                  (λ x lt. omega arith) (s.above),
            ))

    Climbed-next :
        (fuel j q r sib : ℕ) (first : Bool)
        → Step i (leaf_pos n) j q r sib first
        → 2 * r ≤ q
        → (q + 1) * 2 ^ j < 2 ^ 62
        → (r + 1) * 2 ^ suc j ≤ n
        → parent_of hash_children first (tree_of j sib) (tree_of j q) (node_pos (suc j) r)
          ≡ tree_of (suc j) r
        → Climbed n i p (s.h) (2 * s.half) fuel (suc j) r
        → Climbed n i p (s.h) (2 * s.half) (suc fuel) j q
    Climbed-next fuel j q r sib first st half fits inside hashed c =
        let loop = st.loop fuel in
        let st_up = st.up in
        let c_up = c.up in
        let low = c.low in
        let full = ap (λ (t : ℕ). r * t) (pow-suc 2 j) in
        let less = mul-le-mul_left (2 ^ j) half in
        let (_, high) = node_between (suc j) r (omega arith) in
        let end = leaf_pos_mono ((r + 1) * 2 ^ suc j) n inside in
        let (next, _) =
          read_node hash_with_index hash_children leaf n p j sib built
            (let x = st.inside in omega arith) in
        let missing = not_peak j q fits (omega arith) (omega arith) in
        let is_first =
          first_inside (leaf_pos n) (node_pos j q) (node_pos (suc j) r) (node_pos j sib) first
            (st.family_here) missing (omega arith) (st.told) in
        let fam = ap (λ (t : ℕ × ℕ). t.0) (st.family_here) in
        record {
          last = rw loop (c.last);
          up = omega arith;
          low = omega arith;
          verified = λ rest root e he k.
              rw (loop, read_all-some (from_file p) (node_pos j sib) _ next _)
                (verify_next (leaf_pos n) root e (node_pos j q) (node_pos (suc j) r) (tree_of j sib)
                  first _ is_first fam (omega arith)
                  (c.verified rest root
                    (parent_of hash_children first (tree_of j sib) (e (node_pos j q)))
                    (rw he hashed) k));
        }

    over_left :
        (j r : ℕ)
        → parent_of hash_children false
            (tree_of j (2 * r + 1))
            (tree_of j (2 * r))
            (node_pos (suc j) r)
          ≡ tree_of (suc j) r
    unfolding parent_of tree
    over_left j r = refl

    over_right :
        (j r : ℕ)
        → parent_of hash_children true
            (tree_of j (2 * r))
            (tree_of j (2 * r + 1))
            (node_pos (suc j) r)
          ≡ tree_of (suc j) r
    unfolding parent_of tree
    over_right j r = refl

    -- From a node over the leaf up to the peak.
    pub climb :
        (d j q fuel : ℕ)
        → j + d ≡ s.h
        → q / 2 ^ d ≡ 2 * s.half
        → i / 2 ^ j ≡ q
        → d ≤ fuel
        → Climbed n i p (s.h) (2 * s.half) fuel j q
    climb zero j q fuel at top over le =
        let here : s.h ≡ j = omega arith in
        let same : 2 * s.half ≡ q = omega arith in
        subst (λ (t : ℕ). Climbed n i p (s.h) (2 * s.half) fuel j t) same
          (subst (λ (t : ℕ). Climbed n i p (s.h) (2 * s.half) fuel t (2 * s.half)) here
            (climb_top fuel (ap (λ (t : ℕ). i / 2 ^ t) here ∙ over ∙ sym same)))
    climb (suc d) j q zero at top over le = absurd (omega arith)
    climb (suc d) j q (suc fuel) at top over le =
        let r = q / 2 in
        let few = s.few in
        let inside = s.inside in
        let fits =
          above_node d (suc j) (s.h) r (2 * s.half) (omega arith) (rw (div-two_pow q d) at top) in
        let full = ap (λ (t : ℕ). (r + 1) * t) (pow-suc 2 j) in
        let pos = two_pow_pos j in
        let (_, high) = node_between (suc j) r (omega arith) in
        let end = leaf_pos_mono ((r + 1) * 2 ^ suc j) n (omega arith) in
        let in_size : node_pos (suc j) r < leaf_pos n = omega arith in
        let bound : (2 * r + 1) * 2 ^ j < 2 ^ 60 = omega arith in
        let over' : i / 2 ^ suc j ≡ r =
          halved i (leaf_pos n) j r (omega arith) bound in_size q over refl in
        let c =
          climb d (suc j) r fuel (omega arith) (rw (div-two_pow q d) at top) over' (omega arith) in
        elim (Bool-cases (q % 2 == 0)) [
          | inl even ↦
              let same : q ≡ 2 * r = ground arith in
              subst (λ (t : ℕ). Climbed n i p (s.h) (2 * s.half) (suc fuel) j t) (sym same)
                (Climbed-next fuel j (2 * r) r (2 * r + 1) false
                  (Step-left i (leaf_pos n) j r (omega arith) bound in_size (over ∙ same))
                  (omega arith) (omega arith) (omega arith) (over_left j r) c)
          | inr odd ↦
              let same : q ≡ 2 * r + 1 = ground arith in
              subst (λ (t : ℕ). Climbed n i p (s.h) (2 * s.half) (suc fuel) j t) (sym same)
                (Climbed-next fuel j (2 * r + 1) r (2 * r) true
                  (Step-right i (leaf_pos n) j r (omega arith) bound in_size (over ∙ same))
                  (omega arith) (omega arith) (omega arith) (over_right j r) c)
        ]
