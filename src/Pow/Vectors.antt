-- ===== src/Pow/Vectors.antt =====
-- core/src/pow/cuckaroom.rs: the test vectors of the sources.
use grin.Prelude.{
  leading_zeros, bit_length_from, ℕ, ◌≡◌, refl, List, [], ◌∷◌, some, ok, err, ◌⊎◌, arith,
}
use grin.Pow.SipHash.{SipHash24, siphash_block, hash, digest}
use grin.Pow.Params.{CuckooParams, PowError}
use grin.Pow.RoomLists.{from_node, to_node}
use grin.Pow.RoomProof.{IsCycleProof, edge_hash, verify_cuckaroom-IsCycleProof}
use grin.Pow.Cuckaroom.{
  verify_cuckaroom, room_edge, room_edges, find_from, walk, follow_room, empty_room,
}

abbrev keys19 : SipHash24
keys19 = record {
  v0 = 0xdb7896f799c76dab;
  v1 = 0x352e8bf25df7a723;
  v2 = 0xf0aa29cbb1150ea6;
  v3 = 0x3206c2759f41cbd5;
}

abbrev params19 : CuckooParams
params19 = record {
  proof_size = 42;
  num_edges = 524288;
  siphash_keys = keys19;
  edge_mask = 524287;
  node_mask = 524287;
}

abbrev solution19 : List ℕ
solution19 =
    0x0413c ∷ 0x05121 ∷ 0x0546e ∷ 0x1293a ∷ 0x1dd27 ∷ 0x1e13e ∷ 0x1e1d2 ∷ 0x22870 ∷ 0x24642
    ∷ 0x24833 ∷ 0x29190 ∷ 0x2a732 ∷ 0x2ccf6 ∷ 0x302cf ∷ 0x32d9a ∷ 0x33700 ∷ 0x33a20 ∷ 0x351d9
    ∷ 0x3554b ∷ 0x35a70 ∷ 0x376c1 ∷ 0x398c6 ∷ 0x3f404 ∷ 0x3ff0c ∷ 0x48b26 ∷ 0x49a03 ∷ 0x4c555
    ∷ 0x4dcda ∷ 0x4dfcd ∷ 0x4fbb6 ∷ 0x50275 ∷ 0x584a8 ∷ 0x5da0d ∷ 0x5dbf1 ∷ 0x6038f ∷ 0x66540
    ∷ 0x72bbd ∷ 0x77323 ∷ 0x77424 ∷ 0x77a14 ∷ 0x77dc9 ∷ 0x7d9dc ∷ []

cuckaroom19 : verify_cuckaroom 42 params19 solution19 ≡ some (ok tt)
unfolding verify_cuckaroom room_edge room_edges find_from walk follow_room empty_room siphash_block
    hash digest leading_zeros bit_length_from
cuckaroom19 = refl

verify_cuckaroom-IsCycleProof_example :
    ((e : PowError) × (verify_cuckaroom 42 params19 solution19 ≡ some (err e)))
    ⊎ ((verify_cuckaroom 42 params19 solution19 ≡ some (ok tt))
        × IsCycleProof
            (from_node (edge_hash params19) 524287)
            (to_node (edge_hash params19) 524287)
            524287
            42
            solution19)
verify_cuckaroom-IsCycleProof_example =
    verify_cuckaroom-IsCycleProof 42 params19 solution19 (omega arith)
