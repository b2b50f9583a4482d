-- ===== src/Pmmr/Consistent.antt =====
-- core/src/core/pmmr/pmmr.rs: the ranges that PMMR::validate accepts, those of PMMR::push among them.
use grin.Prelude.{
  ℕ, zero, suc, ◌+◌, ◌-◌, ◌*◌, ◌^◌, ◌<◌, ◌≡◌, ◌↔◌, refl, ap, sym, ◌∙◌, arith, some, ok, get_elem?,
  get_elem?-lt,
}
use grin.Prelude.Try.{◌>>=◌}
use mathlib.Core.Path.{subst}
use native.Mathlib.Decide.{dec_lt}
use native.Mathlib.Nat.{pow-suc}
use grin.Pmmr.Ones.{leaf_pos, leaf_pos_mono, two_pow_pos, locate}
use grin.Pmmr.Nodes.{node_pos, node_pos-zero}
use grin.Pmmr.Reference.{tree, HasNodes}
use grin.Pmmr.VecBackend.{new_vec}
use grin.Pmmr.Range.{Pmmr, at, validate, validate_node}
use grin.Pmmr.Root.{push_first, push_first-IsBuilt}
use grin.Pmmr.Split.{node_between}
use grin.Pmmr.Validate.{IsFull, parent_iff, validate_all_iff, leaf_valid, tree_at, height_at}

module _ {T : Type 0} (hash_with_index : T → ℕ → ℕ) (hash_children : ℕ → ℕ → ℕ → ℕ)
    (leaf : ℕ → T) where
  module _ (n : ℕ) (p : Pmmr T) (small : n < 2 ^ 62)
      (full : IsFull hash_with_index hash_children leaf n p) where
    -- All nodes pass, so each is the hash of the tree below it.
    nodes_of :
        ((s : ℕ) → s < leaf_pos n → validate_node hash_children p s ≡ ok tt)
        → HasNodes hash_with_index hash_children leaf n (p.backend.hashes)
    unfolding tree
    nodes_of valid zero q le =
        ap (get_elem? (p.backend.hashes)) (node_pos-zero q)
        ∙ full.leaves q (omega arith)
        ∙ ap (λ (t : ℕ). some (hash_with_index (leaf q) t)) (sym (node_pos-zero q))
    nodes_of valid (suc k) q le =
        let twice : (q + 1) * 2 ^ suc k ≡ (2 * q + 2) * 2 ^ k =
          omega (arith, ap (λ (t : ℕ). (q + 1) * t) (pow-suc 2 k)) in
        let (_, high) = node_between (suc k) q (omega arith) in
        let end = leaf_pos_mono ((q + 1) * 2 ^ suc k) n le in
        let count = full.count in
        let (h, top) = get_elem?-lt (p.backend.hashes) (node_pos (suc k) q) (omega arith) in
        let left = nodes_of valid k (2 * q) (omega (arith, two_pow_pos k)) in
        let right = nodes_of valid k (2 * q + 1) (omega arith) in
        let same =
          (parent_iff hash_with_index hash_children leaf n p k q h _ _ small full le top left
              right).0
            (valid (node_pos (suc k) q) (omega arith)) in
        top ∙ ap (λ (t : ℕ). some t) (sym same)

    valid_at :
        (m h : ℕ)
        → HasNodes hash_with_index hash_children leaf n (p.backend.hashes)
        → m < n
        → leaf_pos m + h < leaf_pos (m + 1)
        → validate_node hash_children p (leaf_pos m + h) ≡ ok tt
    unfolding tree
    valid_at m zero nodes inside hi =
        leaf_valid hash_with_index hash_children leaf p (leaf_pos m + 0)
          (height_at m 0 (omega arith) hi)
    valid_at m (suc k) nodes inside hi =
        let (q, e, place) = tree_at m (suc k) (omega arith) hi in
        let twice : (q + 1) * 2 ^ suc k ≡ (2 * q + 2) * 2 ^ k =
          omega (arith, ap (λ (t : ℕ). (q + 1) * t) (pow-suc 2 k)) in
        subst (λ (s : ℕ). validate_node hash_children p s ≡ ok tt) place
          ((parent_iff hash_with_index hash_children leaf n p k q _ _ _ small full (omega arith)
              (nodes (suc k) q (omega arith)) (nodes k (2 * q) (omega (arith, two_pow_pos k)))
              (nodes k (2 * q + 1) (omega arith))).1
            refl)

    all_valid :
        HasNodes hash_with_index hash_children leaf n (p.backend.hashes)
        → (s : ℕ) → s < leaf_pos n
        → validate_node hash_children p s ≡ ok tt
    all_valid nodes s lt =
        let (m, lo, hi) = locate s in
        let split : leaf_pos m + (s - leaf_pos m) ≡ s = omega arith in
        let inside : m < n = elim (dec_lt m n) [
          | yes less ↦ less
          | no more ↦ let far = leaf_pos_mono n m (omega arith) in absurd (omega arith)
        ] in
        rw split at (valid_at m (s - leaf_pos m) nodes inside (omega arith))

  -- In a range of fewer than 2^62 leaves, of the size of that many, with a hash at every position and the
  -- hash of the element `leaf i` at that of each leaf `i`, validate accepts exactly when every perfect tree
  -- over these elements has the hash of its root at its place. So a parent that is not the hash of its
  -- children, wherever it stands, is found.
  pub validate_range_iff :
      (n : ℕ) (p : Pmmr T)
      → n < 2 ^ 62
      → IsFull hash_with_index hash_children leaf n p
      → (validate hash_children p ≡ ok tt)
        ↔ HasNodes hash_with_index hash_children leaf n (p.backend.hashes)
  unfolding validate
  validate_range_iff n p small full =
      let scan = validate_all_iff hash_with_index hash_children leaf p 0 (p.size) in
      let size = full.sized in
      (
        λ e. nodes_of n p small full (λ s lt. scan.0 e s (omega arith) (omega arith)),
        λ nodes. scan.1 (λ s le lt. all_valid n p small full nodes s (omega arith)),
      )

  -- What push has built is accepted.
  validate-push_first :
      (n : ℕ)
      → n < 2 ^ 62
      → (push_first hash_with_index hash_children leaf n (at new_vec 0) >>= λ p.
          validate hash_children p)
        ≡ ok tt
  unfolding tree
  validate-push_first n small =
      let (p, e, built) = push_first-IsBuilt hash_with_index hash_children leaf n (omega arith) in
      let full : IsFull hash_with_index hash_children leaf n p = record {
        sized = built.sized;
        count = built.count;
        leaves = λ i lt. rw (node_pos-zero i) at (built.nodes 0 i (omega arith));
      } in
      rw e ((validate_range_iff n p small full).1 (built.nodes))
