-- ===== src/Pmmr/Binding.antt =====
-- core/src/core/merkle_proof.rs: what a Merkle proof that verifies binds the root to.
use grin.Prelude.{
  ℕ, ◌≡◌, ◌⊎◌, inl, inr, refl, arith, List, [], ◌∷◌, length, Bool, true, false, leb, ◌==◌, ==_iff,
  Bool-cases, ok,
}
use grin.Pmmr.Index.{family}
use grin.Pmmr.MerkleProof.{MerkleProof, node_hash, is_sibling_first, parent_of, verify_path, verify}

-- Two different pairs of hashes with one hash at one index.
abbrev pub HasCollision : (ℕ → ℕ → ℕ → ℕ) → Type 0
HasCollision hash_children =
    (index a b c d : ℕ) × (hash_children index a b ≡ hash_children index c d)
    × ¬ ((a ≡ c) × (b ≡ d))

module _ (hash_children : ℕ → ℕ → ℕ → ℕ) where
  same_children :
      (index a b c d : ℕ)
      → hash_children index a b ≡ hash_children index c d
      → ((a ≡ c) × (b ≡ d)) ⊎ HasCollision hash_children
  same_children index a b c d e = elim (Bool-cases (a == c)) [
    | inl ac ↦ elim (Bool-cases (b == d)) [
      | inl bd ↦ inl ((==_iff a c).0 ac, (==_iff b d).0 bd)
      | inr apart ↦ inr (index, a, b, c, d, e, λ both. let bd = both.1 in ground arith)
    ]
    | inr apart ↦ inr (index, a, b, c, d, e, λ both. let ac = both.0 in ground arith)
  ]

  parent_of-same :
      (first : Bool) (index s n s' n' : ℕ)
      → parent_of hash_children first s n index ≡ parent_of hash_children first s' n' index
      → ((s ≡ s') × (n ≡ n')) ⊎ HasCollision hash_children
  unfolding parent_of
  parent_of-same true index s n s' n' e = same_children index s n s' n' e
  parent_of-same false index s n s' n' e = elim (same_children index n s n' s' e) [
    | inl both ↦ inl (both.1, both.0)
    | inr collision ↦ inr collision
  ]

  same_parent :
      (first : Bool) (size pos0 s n s' n' : ℕ)
      → node_hash size (parent_of hash_children first s n) pos0
        ≡ node_hash size (parent_of hash_children first s' n') pos0
      → ((s ≡ s') × (n ≡ n')) ⊎ HasCollision hash_children
  unfolding node_hash
  same_parent first size pos0 s n s' n' e = elim (Bool-cases (leb size pos0)) [
    | inl above ↦ parent_of-same first size s n s' n' (rw above at e)
    | inr within ↦ parent_of-same first pos0 s n s' n' (rw within at e)
  ]

  verify_path-binds :
      (size root : ℕ) (element element' : ℕ → ℕ) (pos0 : ℕ) (path path' : List ℕ)
      → length path ≡ length path'
      → verify_path hash_children size root element pos0 path ≡ ok tt
      → verify_path hash_children size root element' pos0 path' ≡ ok tt
      → ((node_hash size element pos0 ≡ node_hash size element' pos0) × (path ≡ path'))
        ⊎ HasCollision hash_children
  unfolding verify_path
  verify_path-binds size root element element' pos0 [] [] len h h' = inl (ground arith, refl)
  verify_path-binds size root element element' pos0 [] (s' ∷ ss') len h h' = absurd (omega arith)
  verify_path-binds size root element element' pos0 (s ∷ ss) [] len h h' = absurd (omega arith)
  verify_path-binds size root element element' pos0 (s ∷ ss) (s' ∷ ss') len h h' =
      let first = is_sibling_first size pos0 in
      let n = node_hash size element pos0 in
      let n' = node_hash size element' pos0 in
      elim (verify_path-binds size root (parent_of hash_children first s n)
        (parent_of hash_children first s' n') (family pos0).0 ss ss' (omega arith) h h') [
          | inr collision ↦ inr collision
          | inl same ↦ elim (same_parent first size (family pos0).0 s n s' n' (same.0)) [
            | inr collision ↦ inr collision
            | inl both ↦ inl (both.1, rw (both.0, same.1) refl)
          ]
        ]

-- If proofs with equal sizes and equally long paths verify for two elements at one position against
-- one root, then the elements have one hash there and the paths are equal, or two different pairs of
-- hashes with one parent hash are found.
pub verify_binds :
    (hash_children : ℕ → ℕ → ℕ → ℕ) (proof proof' : MerkleProof) (root : ℕ)
    (element element' : ℕ → ℕ) (pos0 : ℕ)
    → proof.mmr_size ≡ proof'.mmr_size
    → length (proof.path) ≡ length (proof'.path)
    → verify hash_children proof root element pos0 ≡ ok tt
    → verify hash_children proof' root element' pos0 ≡ ok tt
    → ((node_hash (proof.mmr_size) element pos0 ≡ node_hash (proof'.mmr_size) element' pos0)
        × (proof.path ≡ proof'.path))
      ⊎ HasCollision hash_children
unfolding verify
verify_binds hash_children proof proof' root element element' pos0 size len h h' = rw size (
    verify_path-binds hash_children (proof'.mmr_size) root element element' pos0 (proof.path)
      (proof'.path) len (rw size at h) h')
