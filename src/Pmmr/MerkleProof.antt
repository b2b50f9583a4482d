-- ===== src/Pmmr/MerkleProof.antt =====
-- core/src/core/merkle_proof.rs: verification of a Merkle proof. The hash function is the blake2
-- crate's; `hash_children` is hash_with_index of a pair of hashes.
use grin.Prelude.{
  ℕ, suc, ◌-◌, List, [], ◌∷◌, length, Bool, true, false, leb, ◌==◌, if◌then◌else◌, Option, some,
  none, Result, ok, err,
}
use grin.Pmmr.Index.{peaks, family, is_left_sibling}

pub data MerkleProofError : Type 0 where
  root_mismatch : MerkleProofError

pub record MerkleProof : Type 0 where
  pub mmr_size : ℕ
  pub path : List ℕ

unfoldable pub empty_proof : MerkleProof
empty_proof = record { mmr_size = 0; path = [] }

-- binary_search in a list without duplicates.
unfoldable pub binary_search : List ℕ → ℕ → Option ℕ
binary_search [] pos = none
binary_search (p ∷ ps) pos =
    let rest = binary_search ps pos in
    if p == pos then some 0 else elim rest [ none ↦ none | some x ↦ some (suc x) ]

-- An element is what hash_with_index gives for it.
unfoldable pub node_hash : ℕ → (ℕ → ℕ) → ℕ → ℕ
node_hash size element pos0 = if leb size pos0 then element size else element pos0

-- Whether the parent of the node hashes the sibling before the node.
unfoldable pub is_sibling_first : ℕ → ℕ → Bool
is_sibling_first size pos0 =
    let (parent_pos0, sibling_pos0) = family pos0 in
    elim (binary_search (peaks size) pos0) [
      | some x ↦ x == length (peaks size) - 1
      | none ↦ if leb size parent_pos0 then true else is_left_sibling sibling_pos0
    ]

unfoldable pub parent_of : (ℕ → ℕ → ℕ → ℕ) → Bool → ℕ → ℕ → ℕ → ℕ
parent_of hash_children true sibling node index = hash_children index sibling node
parent_of hash_children false sibling node index = hash_children index node sibling

-- verify and verify_consume call each other, with one hash of the path less in each round.
unfoldable pub verify_path :
    (ℕ → ℕ → ℕ → ℕ) → ℕ → ℕ → (ℕ → ℕ) → ℕ → List ℕ → Result MerkleProofError (Unit {0})
verify_path hash_children size root element pos0 [] =
    if root == node_hash size element pos0 then ok tt else err root_mismatch
verify_path hash_children size root element pos0 (sibling ∷ path) =
    verify_path hash_children size root
      (parent_of hash_children (is_sibling_first size pos0) sibling (node_hash size element pos0))
      (family pos0).0 path

unfoldable pub verify :
    (ℕ → ℕ → ℕ → ℕ) → MerkleProof → ℕ → (ℕ → ℕ) → ℕ → Result MerkleProofError (Unit {0})
verify hash_children proof root element pos0 =
    verify_path hash_children (proof.mmr_size) root element pos0 (proof.path)
