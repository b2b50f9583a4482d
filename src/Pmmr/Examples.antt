-- ===== src/Pmmr/Examples.antt =====
-- core/src/core/pmmr/pmmr.rs: the theorems at positions of a small range.
use grin.Prelude.{
  ◌++◌, ok, ℕ, List, [], ◌∷◌, ◌*◌, ◌⊎◌, ◌+◌, ◌≤◌, ◌<◌, ◌≡◌, ◌↔◌, refl, max, some, true, not, ltb,
  arith,
}
use grin.Pmmr.Index.{
  peak_map_height, peak_map_loop, insertion_to_pmmr_index, pmmr_leaf_to_insertion_index, n_leaves,
  round_up_to_leaf_pos, is_leaf, family, is_left_sibling, bintree_postorder_height,
}
use grin.Prelude.{count_ones, ones, leading_zeros, bit_length_from}
use grin.Pmmr.Leaves.{leaf_index_iff, n_leaves_iff, round_up_to_leaf_pos_least}
use grin.Pmmr.Index.{peaks, peak_sizes_height, peak_sizes_loop, running_sums}
use grin.Pmmr.MerkleProof.{
  MerkleProof, node_hash, is_sibling_first, binary_search, parent_of, verify_path, verify,
}
use grin.Pmmr.Binding.{HasCollision, verify_binds}
use grin.Ser.BigEndian.{big_endian}
use grin.Ser.Source.{full}
use grin.Ser.BinReader.{BinReader, reader}
use grin.Ser.Coding.{sink_of}
use grin.Pmmr.MerkleCodec.{write_proof, read_proof}
use grin.Pmmr.ProofRoundTrip.{IsStorable, read_proof-write_proof}
use grin.Pmmr.Family.{family_siblings}

leaf_index_iff_example : (pmmr_leaf_to_insertion_index 4 ≡ some 3) ↔ (insertion_to_pmmr_index 3 ≡ 4)
leaf_index_iff_example = leaf_index_iff 4 3 (omega arith) (omega arith)

n_leaves_iff_example : (insertion_to_pmmr_index 3 < 7) ↔ (3 < n_leaves 7)
n_leaves_iff_example = n_leaves_iff 7 3 (omega arith) (omega arith)

round_up_to_leaf_pos_least_example :
    (5 ≤ round_up_to_leaf_pos 5)
    × (round_up_to_leaf_pos 5 ≤ insertion_to_pmmr_index 4)
    × (is_leaf (round_up_to_leaf_pos 5) ≡ true)
unfolding insertion_to_pmmr_index count_ones ones
round_up_to_leaf_pos_least_example =
    round_up_to_leaf_pos_least 5 4 (omega arith) (omega arith) (omega arith)

-- Position 2 stands over the leaves 0 and 1; its sibling is 5 and their parent 6.
family_siblings_example :
    (family 5 ≡ (6, 2))
    × (6 ≡ max 2 5 + 1)
    × (bintree_postorder_height 6 ≡ bintree_postorder_height 2 + 1)
    × (bintree_postorder_height 5 ≡ bintree_postorder_height 2)
    × (is_left_sibling 2 ≡ ltb 2 5)
    × (is_left_sibling 5 ≡ not (is_left_sibling 2))
unfolding family peak_map_height peak_map_loop leading_zeros bit_length_from
family_siblings_example = family_siblings 2 6 5 (omega arith) refl

-- Leaves 0 and 1 under the root at position 2, with a hash that is easy to see through.
abbrev mix : ℕ → ℕ → ℕ → ℕ
mix index a b = index + 10 * a + 1000 * b

abbrev two_leaves : MerkleProof
two_leaves = record { mmr_size = 3; path = 8 ∷ [] }

verify_binds_example :
    ((node_hash 3 (λ i. i + 7) 0 ≡ node_hash 3 (λ i. 7) 0) × (two_leaves.path ≡ two_leaves.path))
    ⊎ HasCollision mix
unfolding verify verify_path node_hash is_sibling_first binary_search parent_of family peaks
    peak_sizes_height peak_sizes_loop running_sums is_left_sibling peak_map_height peak_map_loop
    leading_zeros bit_length_from
verify_binds_example =
    verify_binds mix two_leaves two_leaves 8072 (λ i. i + 7) (λ i. 7) 0 refl refl refl refl

read_proof-write_proof_example :
    (bytes : List ℕ) × (write_proof big_endian two_leaves (sink_of 2 []) ≡ ok (tt, sink_of 2 bytes))
    × ((s' : BinReader) × (read_proof
            (reader big_endian)
            (record { source = bytes ++ (9 ∷ []); version = 2; deser_mode = full })
          ≡ ok (two_leaves, s'))
        × (s'.source ≡ 9 ∷ []))
unfolding IsStorable
read_proof-write_proof_example =
    read_proof-write_proof big_endian 2 two_leaves (9 ∷ [])
      (omega arith, omega arith, (omega arith, tt))
