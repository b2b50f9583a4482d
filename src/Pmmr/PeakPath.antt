-- ===== src/Pmmr/PeakPath.antt =====
-- core/src/core/pmmr/pmmr.rs, core/src/core/merkle_proof.rs: peak_path, and how verify follows it from the
-- peak over a leaf to the root.
use grin.Prelude.{
  ℕ, suc, ◌+◌, ◌*◌, ◌/◌, ◌^◌, ◌≤◌, ◌<◌, ◌≡◌, refl, ap, sym, ◌∙◌, arith, List, [], ◌∷◌, ◌++◌, length,
  length-append, length-reverse, reverse, Bool, true, false, leb, ltb, ◌==◌, some, All, ok,
}
use grin.Prelude.Sorting.{All-map}
use mathlib.Core.Path.{subst}
use mathlib.Core.List.{append-nil, reverse-append}
use native.Mathlib.Nat.{pow-suc, pow-le-pow_right}
use grin.Pmmr.Ones.{leaf_pos, leaf_pos_mono}
use grin.Pmmr.Index.{family, peaks}
use grin.Pmmr.Nodes.{node_pos}
use grin.Pmmr.Tops.{tops, peaks-leaf_pos}
use grin.Pmmr.Reference.{tree, mountains}
use grin.Pmmr.Range.{
  Pmmr, keep, read_all, from_file, peak_from_file, bag, bag_one, with_rhs, bag_the_rhs, peak_path,
  root,
}
use grin.Pmmr.MerkleProof.{binary_search, is_sibling_first, node_hash, parent_of, verify_path}
use grin.Pmmr.Reads.{read_all-some, read_all-append, length-read_all, same_reads, length-mountains}
use grin.Pmmr.Root.{Built, range_root, read_tree, read_tops}
use grin.Pmmr.Split.{SplitAt, tops_more, tops_below, node_between}
use grin.Pmmr.Bagging.{
  keep-append, keep_all, keep_none, binary_search_here, bag_onto, bag-append, hash_up,
  hash_up-reverse, first_outside, verify_up, family_up,
}
use grin.Pmmr.Inside.{beyond}

module _ {T : Type 0} (hash_with_index : T → ℕ → ℕ) (hash_children : ℕ → ℕ → ℕ → ℕ)
    (leaf : ℕ → T) where
  module _ (n i : ℕ) (small : n < 2 ^ 58) (lt : i < n) (p : Pmmr T)
      (built : Built hash_with_index hash_children leaf n p) (s : SplitAt 58 0 n i) where
    abbrev pub peak : ℕ
    peak = node_pos (s.h) (2 * s.half)

    abbrev pub peak_hash : ℕ
    peak_hash = tree hash_with_index hash_children leaf (s.h) (2 * s.half)

    abbrev pub left_hashes : List ℕ
    left_hashes = read_all (peak_from_file p) (s.left)

    abbrev pub right_hashes : List ℕ
    right_hashes = read_all (from_file p) (s.right)

    split_64 : tops 64 0 n ≡ s.left ++ peak ∷ s.right
    split_64 = tops_more 64 58 n small (omega arith) ∙ s.split

    pub split_peaks : peaks (leaf_pos n) ≡ s.left ++ peak ∷ s.right
    split_peaks = peaks-leaf_pos n (omega arith) ∙ split_64

    whole :
        mountains hash_with_index hash_children leaf 64 0 n
        ≡ left_hashes ++ peak_hash ∷ right_hashes
    whole =
        let inside = s.inside in
        sym (read_tops hash_with_index hash_children leaf n p 64 0 n built (omega arith))
        ∙ ap (read_all (peak_from_file p)) split_64
        ∙ read_all-append (peak_from_file p) (s.left) (peak ∷ s.right)
        ∙ ap (λ (t : List ℕ). left_hashes ++ t)
            (read_all-some (peak_from_file p) peak peak_hash
                (read_tree hash_with_index hash_children leaf n p (s.h) (2 * s.half) built
                  (omega arith))
                (s.right)
              ∙ ap (λ (t : List ℕ). peak_hash ∷ t) (same_reads p (s.right)))

    pub rooted :
        range_root hash_with_index hash_children leaf n
        ≡ some (
            bag_onto hash_children (leaf_pos n) left_hashes (
              bag_one hash_children
                (leaf_pos n)
                peak_hash
                (bag hash_children (leaf_pos n) right_hashes)))
    rooted =
        ap (bag hash_children (leaf_pos n)) whole
        ∙ bag-append hash_children (leaf_pos n) left_hashes right_hashes peak_hash

    pub read_right : length right_hashes ≡ length (s.right)
    read_right =
        let all = ap length whole in
        let same = length-mountains hash_with_index hash_children leaf 64 0 n in
        let parts = ap length split_64 in
        let left_le = length-read_all (peak_from_file p) (s.left) in
        let right_le = length-read_all (from_file p) (s.right) in
        let both = length-append left_hashes (peak_hash ∷ right_hashes) in
        let both' = length-append (s.left) (peak ∷ s.right) in omega arith

    peak_above : leaf_pos (2 * s.half * 2 ^ s.h) ≤ peak
    peak_above =
        let inside = s.inside in let (low, _) = node_between (s.h) (2 * s.half) (omega arith) in low

    left_below : All (λ (x : ℕ). x < peak) (s.left)
    left_below =
        let low = peak_above in
        All-map (λ x. x < leaf_pos (2 * s.half * 2 ^ s.h)) (λ x. x < peak) (s.left)
          (λ x lt. omega arith) (s.below)

    first_at_peak : is_sibling_first (leaf_pos n) peak ≡ (length (s.right) == 0)
    unfolding is_sibling_first
    first_at_peak =
        let found =
          ap (λ (t : List ℕ). binary_search t peak) split_peaks
          ∙ binary_search_here (s.left) (s.right) peak left_below in
        let count = ap length split_peaks in
        let parts = length-append (s.left) (peak ∷ s.right) in
        rw (found, is_sibling_first) (ground arith)

    kept_left : keep (λ x. ltb x peak) (s.left ++ peak ∷ s.right) ≡ s.left
    kept_left =
        let f : ℕ → Bool = λ x. ltb x peak in
        let behind =
          All-map (λ x. peak < x) (λ x. f x ≡ false) (s.right) (λ x lt. ground arith) (s.above) in
        let before =
          All-map (λ x. x < peak) (λ x. f x ≡ true) (s.left) (λ x lt. ground arith) left_below in
        keep-append f (s.left) (peak ∷ s.right)
        ∙ rw (keep_all f (s.left) before, keep_none f (peak ∷ s.right) (ground arith, behind))
            (append-nil (s.left))

    kept_right : keep (λ x. ltb peak x) (s.left ++ peak ∷ s.right) ≡ s.right
    kept_right =
        let f : ℕ → Bool = λ x. ltb peak x in
        let behind =
          All-map (λ x. peak < x) (λ x. f x ≡ true) (s.right) (λ x lt. ground arith) (s.above) in
        let before =
          All-map (λ x. x < peak) (λ x. f x ≡ false) (s.left) (λ x lt. ground arith) left_below in
        let here : f peak ≡ false = ground arith in
        keep-append f (s.left) (peak ∷ s.right)
        ∙ rw (keep_none f (s.left) before, here) (keep_all f (s.right) behind)

    pub path_at_peak :
        peak_path hash_children p peak
        ≡ reverse (with_rhs left_hashes (bag hash_children (leaf_pos n) right_hashes))
    unfolding peak_path bag_the_rhs
    path_at_peak = rw (built.sized, split_peaks, kept_left, kept_right) refl

    peak_inside : peak < leaf_pos n
    peak_inside =
        let inside = s.inside in
        let (_, high) = node_between (s.h) (2 * s.half) (omega arith) in
        let end = leaf_pos_mono ((2 * s.half + 1) * 2 ^ s.h) n (omega arith) in omega arith

    left_is_first :
        (x : ℕ)
        → leaf_pos n ≤ x
        → leaf_pos n ≤ (family x).0
        → is_sibling_first (leaf_pos n) x ≡ true
    left_is_first x le up = first_outside hash_children (leaf_pos n) x up (
        subst (λ (t : List ℕ). All (λ (y : ℕ). y < x) t) (sym (peaks-leaf_pos n (omega arith)))
          (tops_below 64 0 n x (omega arith) (rw zero_leaves at le)))
      where
        zero_leaves : n ≡ 0 * 2 ^ 64 + n
        zero_leaves = omega arith

    -- The first hash above the peak, and all that follow.
    after_peak :
        (x : ℕ) (path : List ℕ) (root : ℕ) (e : ℕ → ℕ) (first : Bool)
        → is_sibling_first (leaf_pos n) peak ≡ first
        → e peak ≡ peak_hash
        → length path ≤ length (s.left)
        → root
          ≡ hash_up hash_children
              (leaf_pos n)
              path
              (parent_of hash_children first x peak_hash (leaf_pos n))
        → verify_path hash_children (leaf_pos n) root e peak (x ∷ path) ≡ ok tt
    unfolding verify_path node_hash
    after_peak x path root e first is_first he le same =
        let few = s.few in
        let inside = s.inside in
        let outside = s.outside in
        let here = peak_inside in
        let top = pow-le-pow_right {n = 2} (omega arith) {i = s.h} {j = 57} (omega arith) in
        let full = ap (λ (t : ℕ). (s.half + 1) * t) (pow-suc 2 (s.h)) in
        let half : 2 * s.half / 2 ≡ s.half = omega arith in
        let (up, behind, less) = family_up (s.h) (2 * s.half) (omega arith) (omega arith) in
        let reach = beyond (suc (s.h)) (s.half) n (omega arith) (omega arith) in
        let below : leb (leaf_pos n) peak ≡ false = ground arith in
        rw (is_first, up, below, he)
          (verify_up hash_children (leaf_pos n) path root
            (parent_of hash_children first x peak_hash) (suc (s.h)) (2 * s.half / 2) left_is_first
            (rw half reach) (omega arith) (omega arith) same)

    to_the_left :
        (path : List ℕ) (root : ℕ) (e : ℕ → ℕ)
        → is_sibling_first (leaf_pos n) peak ≡ true
        → e peak ≡ peak_hash
        → length path ≤ length (s.left)
        → root ≡ hash_up hash_children (leaf_pos n) path peak_hash
        → verify_path hash_children (leaf_pos n) root e peak path ≡ ok tt
    unfolding verify_path node_hash hash_up parent_of
    to_the_left [] root e is_first he le same =
        let here = peak_inside in
        let below : leb (leaf_pos n) peak ≡ false = ground arith in
        let equal : (root == e peak) ≡ true = ground arith in rw (below, equal) refl
    to_the_left (x ∷ path) root e is_first he le same =
        after_peak x path root e true is_first he (omega arith) same

    few_left : length (reverse left_hashes) ≤ length (s.left)
    few_left =
        omega (arith, length-reverse left_hashes, length-read_all (peak_from_file p) (s.left))

    pub above_peak :
        (rs : List ℕ) (root : ℕ) (e : ℕ → ℕ)
        → length rs ≡ length (s.right)
        → e peak ≡ peak_hash
        → root
          ≡ bag_onto hash_children
              (leaf_pos n)
              left_hashes
              (bag_one hash_children (leaf_pos n) peak_hash (bag hash_children (leaf_pos n) rs))
        → verify_path hash_children
            (leaf_pos n)
            root
            e
            peak
            (reverse (with_rhs left_hashes (bag hash_children (leaf_pos n) rs)))
          ≡ ok tt
    unfolding bag parent_of
    above_peak [] root e count he same =
        let none_right : (length (s.right) == 0) ≡ true = ground arith in
        to_the_left (reverse left_hashes) root e (first_at_peak ∙ none_right) he few_left
          (same ∙ sym (hash_up-reverse hash_children (leaf_pos n) left_hashes peak_hash))
    above_peak (r ∷ rs) root e count he same =
        let some_right : (length (s.right) == 0) ≡ false = ground arith in
        let rhs = bag_one hash_children (leaf_pos n) r (bag hash_children (leaf_pos n) rs) in
        ap (verify_path hash_children (leaf_pos n) root e peak)
          (reverse-append left_hashes (rhs ∷ []))
        ∙ after_peak rhs (reverse left_hashes) root e false (first_at_peak ∙ some_right) he few_left
            (same
              ∙ sym (
                  hash_up-reverse hash_children (leaf_pos n) left_hashes
                    (hash_children (leaf_pos n) peak_hash rhs)))
