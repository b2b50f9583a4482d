-- ===== src/Pmmr/RangeExamples.antt =====
-- core/src/core/pmmr/pmmr.rs: ranges of few elements, with sums for hashes.
use grin.Prelude.{
  ℕ, ◌+◌, ◌*◌, ◌≡◌, ◌↔◌, refl, zero, suc, ◌<◌, get_elem?, arith, count_ones, ones, [], ◌∷◌, some,
  none, Result, ok, err,
}
use grin.Prelude.Try.{◌>>=◌}
use grin.Pmmr.Ones.{leaf_pos}
use grin.Prelude.{leading_zeros, bit_length_from}
use grin.Pmmr.Index.{
  insertion_to_pmmr_index, peak_map_height, peak_map_loop, peaks, peak_sizes_height,
  peak_sizes_loop, running_sums, is_leaf, bintree_postorder_height, family_branch,
  family_branch_loop,
}
use grin.Pmmr.Reference.{HasNodes}
use grin.Pmmr.VecBackend.{new_vec, append, get_from_file, get_hash, remove}
use grin.Pmmr.Range.{
  Pmmr, at, PmmrError, not_a_leaf, push, push_loop, bag, peak_hashes, read_all, peak_from_file,
  from_file, peak_path, bag_the_rhs, root, validate, validate_all, validate_node, check_children,
  parent_mismatch, rewind, prune, hash_of, merkle_proof,
}
use grin.Pmmr.Root.{push_first, range_root, root-push_first}
use grin.Pmmr.MerkleProof.{MerkleProof, verify}
use grin.Pmmr.Complete.{merkle_proof-verify}
use grin.Pmmr.Rewind.{rewind-push_first}
use grin.Pmmr.Validate.{IsFull}
use grin.Pmmr.Consistent.{validate_range_iff}

abbrev hash_with_index : ℕ → ℕ → ℕ
hash_with_index element index = 10 * element + index

abbrev hash_children : ℕ → ℕ → ℕ → ℕ
hash_children index left right = 100 * left + 10 * right + index

abbrev leaf : ℕ → ℕ
leaf i = i + 1

abbrev pushed : ℕ → Result PmmrError (Pmmr ℕ)
pushed n = push_first hash_with_index hash_children leaf n (at new_vec 0)

root-push_first_example :
    (p : Pmmr ℕ) × (r : ℕ) × (pushed 3 ≡ ok p)
    × (p.size ≡ leaf_pos 3)
    × HasNodes hash_with_index hash_children leaf 3 (p.backend.hashes)
    × (range_root hash_with_index hash_children leaf 3 ≡ some r)
    × (root hash_children p ≡ ok r)
root-push_first_example =
    root-push_first hash_with_index hash_children leaf 3 (omega arith) (omega arith)

rewind-push_first_example : (pushed 5 >>= λ q. ok (rewind (insertion_to_pmmr_index 3) q)) ≡ pushed 3
rewind-push_first_example =
    rewind-push_first hash_with_index hash_children leaf 3 5 (omega arith) (omega arith)

merkle_proof-verify_example :
    (p : Pmmr ℕ) × (proof : MerkleProof) × (r : ℕ) × (pushed 5 ≡ ok p)
    × (merkle_proof hash_children p (insertion_to_pmmr_index 1) ≡ ok proof)
    × (root hash_children p ≡ ok r)
    × (verify hash_children proof r (hash_with_index (leaf 1)) (insertion_to_pmmr_index 1) ≡ ok tt)
merkle_proof-verify_example =
    merkle_proof-verify hash_with_index hash_children leaf 5 1 (omega arith) (omega arith)

three_pushed :
    pushed 3
    ≡ ok (
        at
          (record {
            elements = some (1 ∷ 2 ∷ 3 ∷ []);
            hashes = 10 ∷ 21 ∷ 1212 ∷ 33 ∷ [];
            removed = [];
          })
          4)
unfolding push_first push push_loop append peak_map_height peak_map_loop get_from_file leading_zeros
    bit_length_from
three_pushed = refl

abbrev three : Pmmr ℕ
three =
    at
      (record { elements = some (1 ∷ 2 ∷ 3 ∷ []); hashes = 10 ∷ 21 ∷ 1212 ∷ 33 ∷ []; removed = [] })
      4

three_leaves :
    (i : ℕ)
    → i < 3
    → get_elem? (three.backend.hashes) (leaf_pos i) ≡ some (hash_with_index (leaf i) (leaf_pos i))
unfolding leaf_pos count_ones ones
three_leaves zero lt = refl
three_leaves (suc zero) lt = refl
three_leaves (suc (suc zero)) lt = refl
three_leaves (suc (suc (suc i))) lt = absurd (omega arith)

three-IsFull : IsFull hash_with_index hash_children leaf 3 three
unfolding leaf_pos count_ones ones
three-IsFull = record { sized = refl; count = refl; leaves = three_leaves }

validate_range_iff_example :
    (validate hash_children three ≡ ok tt)
    ↔ HasNodes hash_with_index hash_children leaf 3 (three.backend.hashes)
validate_range_iff_example =
    validate_range_iff hash_with_index hash_children leaf 3 three (omega arith) three-IsFull

-- The parent at the position 2 is not the hash of its children.
abbrev tampered : Pmmr ℕ
tampered =
    at
      (record { elements = some (1 ∷ 2 ∷ 3 ∷ []); hashes = 10 ∷ 21 ∷ 1213 ∷ 33 ∷ []; removed = [] })
      4

validate-tampered : validate hash_children tampered ≡ err (parent_mismatch 3)
unfolding validate validate_all validate_node check_children hash_of get_hash from_file
    get_from_file bintree_postorder_height peak_map_height peak_map_loop leading_zeros
    bit_length_from is_leaf
validate-tampered = refl

root-three : root hash_children three ≡ ok 121534
unfolding root bag peak_hashes peaks peak_sizes_height peak_sizes_loop running_sums leading_zeros
    bit_length_from read_all peak_from_file get_from_file
root-three = refl

-- A parent cannot be pruned; a pruned leaf is no longer read.
prune-three : prune 2 three ≡ err not_a_leaf
unfolding prune get_hash is_leaf bintree_postorder_height peak_map_height peak_map_loop
    leading_zeros bit_length_from
prune-three = refl

pruned_is_gone : (prune 1 three >>= λ r. ok (hash_of (r.1) 1)) ≡ ok none
unfolding prune get_hash get_from_file hash_of remove is_leaf bintree_postorder_height
    peak_map_height peak_map_loop leading_zeros bit_length_from
pruned_is_gone = refl

merkle_proof-three :
    merkle_proof hash_children three 0 ≡ ok (record { mmr_size = 4; path = 21 ∷ 33 ∷ [] })
unfolding merkle_proof family_branch family_branch_loop is_leaf bintree_postorder_height
    peak_map_height peak_map_loop leading_zeros bit_length_from read_all from_file get_from_file
    peak_path bag_the_rhs bag peaks peak_sizes_height peak_sizes_loop running_sums peak_from_file
    hash_of get_hash
merkle_proof-three = refl
