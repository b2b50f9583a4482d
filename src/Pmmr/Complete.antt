-- ===== src/Pmmr/Complete.antt =====
-- core/src/core/pmmr/pmmr.rs, core/src/core/merkle_proof.rs: a proof that merkle_proof makes is one that
-- verify accepts.
use grin.Prelude.{
  ℕ, zero, suc, ◌*◌, ◌^◌, ◌<◌, ◌≡◌, refl, ap, sym, ◌∙◌, arith, List, [], ◌++◌, true, ◌==◌, some, ok,
}
use mathlib.Core.Option.{some-injective}
use native.Mathlib.Nat.{pow-suc, div-eq_of_lt-le}
use grin.Pmmr.Ones.{leaf_pos, le-leaf_pos}
use grin.Pmmr.Index.{family_branch, family_branch_loop, is_leaf, bintree_postorder_height}
use grin.Pmmr.Nodes.{node_pos, node_pos-zero}
use grin.Pmmr.Reference.{tree}
use grin.Pmmr.Range.{
  Pmmr, at, read_all, from_file, siblings, last_parent, peak_path, root, merkle_proof, hash_of,
}
use grin.Pmmr.MerkleProof.{MerkleProof, verify_path, verify}
use grin.Pmmr.VecBackend.{new_vec, get_hash, get_from_file}
use grin.Pmmr.Root.{Built, push_first, range_root, root-some}
use grin.Pmmr.Rewind.{at_leaf, IsLonger-of}
use grin.Pmmr.Validate.{read_node}
use grin.Pmmr.Index.{insertion_to_pmmr_index}
use grin.Pmmr.Ones.{insertion-eq-leaf_pos}
use grin.Pmmr.PeakPath.{split_peaks, rooted, path_at_peak, above_peak, right_hashes, read_right}
use grin.Pmmr.Split.{SplitAt, split_tops}
use grin.Pmmr.Proving.{Climbed, climb}

below_two_pow : (h : ℕ) → h < 2 ^ h
below_two_pow zero = omega arith
below_two_pow (suc h) = omega (arith, below_two_pow h, pow-suc 2 h)

module _ {T : Type 0} (hash_with_index : T → ℕ → ℕ) (hash_children : ℕ → ℕ → ℕ → ℕ)
    (leaf : ℕ → T) where
  module _ (n i : ℕ) (small : n < 2 ^ 58) (lt : i < n) (p : Pmmr T)
      (built : Built hash_with_index hash_children leaf n p) (s : SplitAt 58 0 n i) where
    abbrev peak : ℕ
    peak = node_pos (s.h) (2 * s.half)

    branch_start :
        family_branch (leaf_pos i) (leaf_pos n)
        ≡ family_branch_loop (leaf_pos n) i (leaf_pos n) (2 ^ 0) (node_pos 0 i)
    unfolding family_branch
    branch_start = rw (at_leaf i (omega arith), node_pos-zero i) refl

    climbed : Climbed hash_with_index hash_children leaf n i p (s.h) (2 * s.half) (leaf_pos n) 0 i
    climbed =
        let from = s.from in
        let to = s.to in
        let inside = s.inside in
        let size = le-leaf_pos n in
        let deep = below_two_pow (s.h) in
        climb hash_with_index hash_children leaf n i small p built s
          (split_peaks hash_with_index hash_children leaf n i small lt p built s) (s.h) 0 i
          (leaf_pos n) (omega arith) (div-eq_of_lt-le (2 ^ s.h) (omega arith) (omega arith))
          (omega arith) (omega arith)

    -- The path of merkle_proof for this leaf.
    abbrev the_path : List ℕ
    the_path =
        read_all (from_file p) (siblings (family_branch (leaf_pos i) (leaf_pos n)))
        ++ peak_path hash_children p
            (last_parent (leaf_pos i) (family_branch (leaf_pos i) (leaf_pos n)))

    at_leaf_is_leaf : is_leaf (leaf_pos i) ≡ true
    unfolding is_leaf bintree_postorder_height
    at_leaf_is_leaf = ap (λ (t : ℕ × ℕ). t.1 == 0) (at_leaf i (omega arith))

    stored_leaf :
        p.backend.removed ≡ []
        → hash_of p (leaf_pos i) ≡ some (tree hash_with_index hash_children leaf 0 i)
    unfolding hash_of from_file get_hash get_from_file
    stored_leaf removed =
        let (got, _) = read_node hash_with_index hash_children leaf n p 0 i built (omega arith) in
        rw (at_leaf_is_leaf, removed) (rw (node_pos-zero i) at got)

    proof_of :
        p.backend.removed ≡ []
        → merkle_proof hash_children p (leaf_pos i)
          ≡ ok (record { mmr_size = leaf_pos n; path = the_path })
    unfolding merkle_proof
    proof_of removed = rw (at_leaf_is_leaf, stored_leaf removed, built.sized) refl

    split_path :
        the_path
        ≡ read_all
            (from_file p)
            (siblings (family_branch_loop (leaf_pos n) i (leaf_pos n) (2 ^ 0) (node_pos 0 i)))
          ++ peak_path hash_children p peak
    split_path =
        let up =
          ap
            (λ (t : ℕ).
              last_parent t (family_branch_loop (leaf_pos n) i (leaf_pos n) (2 ^ 0) (node_pos 0 i)))
            (sym (node_pos-zero i))
          ∙ climbed.last in
        rw (branch_start, up) refl

    leaf_hash :
        hash_with_index (leaf i) (node_pos 0 i) ≡ tree hash_with_index hash_children leaf 0 i
    unfolding tree
    leaf_hash = refl

    path_verifies :
        (r : ℕ)
        → range_root hash_with_index hash_children leaf n ≡ some r
        → verify_path hash_children (leaf_pos n) r (hash_with_index (leaf i)) (leaf_pos i) the_path
          ≡ ok tt
    path_verifies r e =
        let same =
          some-injective r _
            (sym e ∙ rooted hash_with_index hash_children leaf n i small lt p built s) in
        let top =
          climbed.verified (peak_path hash_children p peak) r (hash_with_index (leaf i)) leaf_hash
            (λ e' he.
              ap (verify_path hash_children (leaf_pos n) r e' peak)
                (path_at_peak hash_with_index hash_children leaf n i small lt p built s)
              ∙ above_peak hash_with_index hash_children leaf n i small lt p built s
                  (right_hashes hash_with_index hash_children leaf n i small lt p built s) r e'
                  (read_right hash_with_index hash_children leaf n i small lt p built s) he same) in
        ap
          (λ (t : ℕ).
            verify_path hash_children (leaf_pos n) r (hash_with_index (leaf i)) t the_path)
          (sym (node_pos-zero i))
        ∙ ap (verify_path hash_children (leaf_pos n) r (hash_with_index (leaf i)) (node_pos 0 i))
            split_path
        ∙ top

  -- Of a range of fewer than 2 ^ 58 pushed elements, merkle_proof makes a proof for each one, with the size
  -- and a path, and verify accepts it for that element at its position and the root that the range gives.
  pub merkle_proof-verify :
      (n i : ℕ)
      → n < 2 ^ 58
      → i < n
      → (p : Pmmr T) × (proof : MerkleProof) × (r : ℕ) × (push_first hash_with_index hash_children
            leaf n
            (at new_vec 0)
          ≡ ok p)
        × (merkle_proof hash_children p (insertion_to_pmmr_index i) ≡ ok proof)
        × (root hash_children p ≡ ok r)
        × (verify hash_children proof r (hash_with_index (leaf i)) (insertion_to_pmmr_index i)
            ≡ ok tt)
  unfolding verify
  merkle_proof-verify n i small lt =
      let (p, q, l) =
        IsLonger-of hash_with_index hash_children leaf n n (omega arith) (omega arith) in
      let (r, rooted, eq) =
        root-some hash_with_index hash_children leaf n p (omega arith) (omega arith) (l.base) in
      let s = split_tops 58 0 n i (omega arith) (omega arith) (omega arith) (omega arith) in
      let here = insertion-eq-leaf_pos i (omega arith) in
      rw here (
        p,
        record { mmr_size = leaf_pos n; path = the_path n i small lt p (l.base) s },
        r,
        l.first,
        proof_of n i small lt p (l.base) s (l.removed'),
        eq,
        path_verifies n i small lt p (l.base) s r rooted,
      )
