-- ===== src/Pow/RoodVectors.antt =====
-- core/src/pow/cuckarood.rs: the test vector of the sources, and a proof on which the check hangs.
use grin.Prelude.{
  ◌≤◌, leading_zeros, bit_length_from, ℕ, ◌≡◌, refl, List, [], ◌∷◌, some, none, Result, ok, err,
  inr,
}
use grin.Pow.SipHash.{siphash_block, hash, digest}
use grin.Pow.Params.{CuckooParams, PowError}
use grin.Pow.RoodProof.{IsRoodProof, verify_cuckarood-IsRoodProof}
use grin.Pow.RoodLoop.{one, more, edges_of, verify_cuckarood-none}
use grin.Pow.Cuckarood.{
  Rood, verify_cuckarood, rood_edge, rood_edges, find_reverse, next_end, walk_rood, follow_rood,
  empty_rood,
}

abbrev params_of : ℕ → CuckooParams
params_of v0 = record {
  proof_size = 42;
  num_edges = 524288;
  siphash_keys = record {
    v0 = v0;
    v1 = 0x7586b93105a5fd13;
    v2 = 0x6fbe212dd4e8c001;
    v3 = 0x8800c93a8431f938;
  };
  edge_mask = 524287;
  node_mask = 262143;
}

abbrev solution_d : List ℕ
solution_d =
    0xa00 ∷ 0x3ffb ∷ 0xa474 ∷ 0xdc27 ∷ 0x182e6 ∷ 0x242cc ∷ 0x24de4 ∷ 0x270a2 ∷ 0x28356 ∷ 0x2951f
    ∷ 0x2a6ae ∷ 0x2c889 ∷ 0x355c7 ∷ 0x3863b ∷ 0x3bd7e ∷ 0x3cdbc ∷ 0x3ff95 ∷ 0x430b6 ∷ 0x4ba1a
    ∷ 0x4bd7e ∷ 0x4c59f ∷ 0x4f76d ∷ 0x52064 ∷ 0x5378c ∷ 0x540a3 ∷ 0x5af6b ∷ 0x5b041 ∷ 0x5e9d3
    ∷ 0x64ec7 ∷ 0x6564b ∷ 0x66763 ∷ 0x66899 ∷ 0x66e80 ∷ 0x68e4e ∷ 0x69133 ∷ 0x6b20a ∷ 0x6c2d7
    ∷ 0x6fd3b ∷ 0x79a8a ∷ 0x79e29 ∷ 0x7ae52 ∷ 0x7defe ∷ []

abbrev looping : List ℕ
looping =
    0x7090 ∷ 0xa5da ∷ 0x1069b ∷ 0x1131f ∷ 0x13fdb ∷ 0x14ad6 ∷ 0x1e107 ∷ 0x1e475 ∷ 0x2216f ∷ 0x2738b
    ∷ 0x2ad80 ∷ 0x324bf ∷ 0x33195 ∷ 0x33cd0 ∷ 0x3e120 ∷ 0x42020 ∷ 0x449fc ∷ 0x459c5 ∷ 0x49df3
    ∷ 0x4f876 ∷ 0x508f2 ∷ 0x519bd ∷ 0x5495b ∷ 0x55165 ∷ 0x5584f ∷ 0x59c91 ∷ 0x5a45f ∷ 0x5a536
    ∷ 0x5afb9 ∷ 0x5be06 ∷ 0x62183 ∷ 0x6a265 ∷ 0x6b744 ∷ 0x6d65e ∷ 0x6e692 ∷ 0x6eae2 ∷ 0x78a32
    ∷ 0x78ceb ∷ 0x7bd34 ∷ 0x7d27a ∷ 0x7f09a ∷ 0x7fcc0 ∷ []

cuckarood19 : verify_cuckarood 43 42 (params_of 0x89f81d7da5e674df) solution_d ≡ some (ok tt)
unfolding verify_cuckarood rood_edge rood_edges find_reverse next_end walk_rood follow_rood
    empty_rood siphash_block hash digest leading_zeros bit_length_from
cuckarood19 = refl

still_running : verify_cuckarood 100 42 (params_of 0x89f81d7da5e674e9) looping ≡ none
unfolding verify_cuckarood rood_edge rood_edges find_reverse next_end walk_rood follow_rood
    empty_rood siphash_block hash digest leading_zeros bit_length_from
still_running = refl

abbrev hanging : CuckooParams
hanging = params_of 0x89f81d7da5e674e9

abbrev taken_or : Rood → Result PowError Rood → Rood
taken_or s (err e) = s
taken_or s (ok t) = t

abbrev taken : Rood
taken = taken_or (empty_rood 42) (edges_of hanging looping)

-- Edge 0 leads into a circle of two other edges, and the check goes round in it.
verify_cuckarood-none_example : verify_cuckarood 1000000 42 hanging looping ≡ none
unfolding verify_cuckarood rood_edge rood_edges find_reverse next_end walk_rood follow_rood
    empty_rood siphash_block hash digest leading_zeros bit_length_from
verify_cuckarood-none_example =
    verify_cuckarood-none 1000000 42 80 hanging looping taken refl refl refl
      (inr (more {i = 0} {j = 7} {k = 80} refl refl (one refl refl)))
      (more {i = 80} {j = 83} {k = 80} refl refl (one refl refl))

verify_cuckarood-IsRoodProof_example :
    IsRoodProof (params_of 0x89f81d7da5e674df) 42 solution_d
    × ((more : ℕ)
        → 42 ≤ more
        → verify_cuckarood more 42 (params_of 0x89f81d7da5e674df) solution_d ≡ some (ok tt))
verify_cuckarood-IsRoodProof_example =
    verify_cuckarood-IsRoodProof 43 42 (params_of 0x89f81d7da5e674df) solution_d cuckarood19
