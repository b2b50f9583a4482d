-- ===== src/Pow/RoodProof.antt =====
-- core/src/pow/cuckarood.rs: what an accepted proof is.
use grin.Prelude.{
  ℕ, suc, ◌+◌, ◌/◌, ◌≤◌, ◌≡◌, refl, ◌∙◌, inl, inr, arith, List, [], ◌∷◌, length, All, ◌==◌, ==_iff,
  Bool-cases, Option, some, none, Result, ok, err, true, false, bit_or, bit_and, ltb, leb,
}
use grin.Prelude.Sorting.{IsDistinct}
use grin.Pow.SipHash.{siphash_block}
use grin.Pow.Params.{CuckooParams, PowError, mask_of}
use grin.Pow.Cuckaroom.{not_above}
use grin.Pow.Cuckarood.{
  Rood, empty_rood, rood_edge, rood_edges, rood_result, walk_rood, follow_rood, verify_cuckarood,
}
use grin.Pow.RoomLists.{IsRising, IsRising-step}
use grin.Pow.RoodLoop.{edges_of}
use grin.Pow.RoodCycle.{
  IsWay, Returns-IsDistinct, Returns-IsWay, walk_rood-Returns, Returns-walk_rood,
}

-- The nonces rise up to the mask, and the way from endpoint 0 goes back to it through as many
-- different endpoints as the size says.
pub record IsRoodProof (params : CuckooParams) (proofsize : ℕ) (nonces : List ℕ) : Type 0 where
  pub counted : length nonces ≡ proofsize
  pub rising : IsRising none nonces
  pub small : All (λ x. x ≤ params.edge_mask) nonces
  pub state : Rood
  pub taken : edges_of params nonces ≡ ok state
  pub path : List ℕ
  pub steps : suc (length path) ≡ proofsize
  pub distinct : IsDistinct (0 ∷ path)
  pub way : IsWay state 0 path

abbrev edge_hash : CuckooParams → ℕ → ℕ
edge_hash params nonce = siphash_block (params.siphash_keys) nonce 25 false

module _ (edge_of : ℕ → ℕ) (edge_mask node_mask mask : ℕ) where
  rood_edges-IsRising :
      (size : ℕ) (last : Option ℕ) (nonces : List ℕ) (s t : Rood)
      → rood_edges edge_of edge_mask node_mask mask size last nonces s ≡ ok t
      → IsRising last nonces × All (λ x. x ≤ edge_mask) nonces
  unfolding rood_edges
  rood_edges-IsRising size last [] s t h = (tt, tt)
  rood_edges-IsRising size last (x ∷ xs) s t h =
      elim (Bool-cases (leb (size / 2) (s.ndir (bit_and x 1)))) [
        | inl full ↦ let bad = rw full at h in absurd cc
        | inr room ↦ elim (Bool-cases (ltb edge_mask x)) [
          | inl big ↦ let bad = rw (room, big) at h in absurd cc
          | inr fits ↦ elim (Bool-cases (not_above last x)) [
            | inl low ↦ let bad = rw (room, fits, low) at h in absurd cc
            | inr above ↦
                let (rise, small) =
                  rood_edges-IsRising size (some x) xs
                    (rood_edge edge_of edge_mask node_mask mask x s) t
                    (rw (room, fits, above) at h) in
                (
                  IsRising-step edge_of edge_mask node_mask mask last x xs above rise,
                  (ground arith, small),
                )
          ]
        ]
      ]

  walked_size :
      (size : ℕ) (w : Option (Result PowError ℕ))
      → rood_result edge_of edge_mask node_mask mask size w ≡ some (ok tt)
      → w ≡ some (ok size)
  walked_size size none h = absurd cc
  walked_size size (some (err e)) h = absurd cc
  walked_size size (some (ok n)) h = elim (Bool-cases (n == size)) [
    | inl all ↦ rw ((==_iff n size).0 all) refl
    | inr short ↦ let bad = rw short at h in absurd cc
  ]

  -- What follows when the walk of these edges is accepted.
  pub record IsFollowed (size : ℕ) (r : Result PowError Rood) : Type 0 where
    pub state : Rood
    pub taken : r ≡ ok state
    pub path : List ℕ
    pub steps : suc (length path) ≡ size
    pub distinct : IsDistinct (0 ∷ path)
    pub way : IsWay state 0 path
    pub enough :
        (more : ℕ)
        → size ≤ more
        → follow_rood edge_of edge_mask node_mask mask more size r ≡ some (ok tt)

  walked-IsFollowed :
      (fuel size : ℕ) (s : Rood)
      → (bit_or (s.xor0) (s.xor1) == 0) ≡ true
      → walk_rood edge_of edge_mask node_mask mask fuel s size 0 0 ≡ some (ok size)
      → IsFollowed size (ok s)
  unfolding follow_rood
  walked-IsFollowed fuel size s match h =
      let (p, r, count) =
        walk_rood-Returns edge_of edge_mask node_mask mask fuel s size 0 0 size h in
      let (path, e, way) = Returns-IsWay edge_of edge_mask node_mask mask s size r in
      record {
        state = s;
        taken = refl;
        path = path;
        steps = let l : length p ≡ suc (length path) = rw e refl in omega arith;
        distinct = rw e at (Returns-IsDistinct _ r);
        way = way;
        enough = λ more le.
            let again =
              Returns-walk_rood edge_of edge_mask node_mask mask more s size 0 r (omega arith) in
            let itself : (0 + length p == size) ≡ true = ground arith in
            rw (match, again, itself) refl;
      }

  follow_rood-IsFollowed :
      (fuel size : ℕ) (r : Result PowError Rood)
      → follow_rood edge_of edge_mask node_mask mask fuel size r ≡ some (ok tt)
      → IsFollowed size r
  unfolding follow_rood
  follow_rood-IsFollowed fuel size (err e) h = absurd cc
  follow_rood-IsFollowed fuel size (ok s) h = elim (Bool-cases (bit_or (s.xor0) (s.xor1) == 0)) [
    | inl match ↦ walked-IsFollowed fuel size s match (
        walked_size size (walk_rood edge_of edge_mask node_mask mask fuel s size 0 0)
          (rw match at h))
    | inr apart ↦ let bad = rw apart at h in absurd cc
  ]

-- When the check of a proof accepts, there are as many nonces as the proof size, they rise and are
-- within the edge mask, and the way from endpoint 0 leads back to it through as many endpoints as the
-- proof size, all different. Each step of the way goes to the other end of an edge that has another
-- endpoint at the same node. As many rounds as the proof size, or any more, suffice to accept it.
pub verify_cuckarood-IsRoodProof :
    (fuel proofsize : ℕ) (params : CuckooParams) (nonces : List ℕ)
    → verify_cuckarood fuel proofsize params nonces ≡ some (ok tt)
    → IsRoodProof params proofsize nonces
      × ((more : ℕ)
          → proofsize ≤ more
          → verify_cuckarood more proofsize params nonces ≡ some (ok tt))
unfolding verify_cuckarood
verify_cuckarood-IsRoodProof fuel proofsize params nonces h =
    elim (Bool-cases (length nonces == proofsize)) [
      | inr other ↦ let bad = rw other at h in absurd cc
      | inl same ↦
          let size = (==_iff (length nonces) proofsize).0 same in
          let f =
            follow_rood-IsFollowed (edge_hash params) (params.edge_mask) (params.node_mask)
              (mask_of (length nonces)) fuel (length nonces) (edges_of params nonces)
              (rw same at h) in
          let (rise, small) =
            rood_edges-IsRising (edge_hash params) (params.edge_mask) (params.node_mask)
              (mask_of (length nonces)) (length nonces) none nonces (empty_rood (length nonces))
              (f.state) (f.taken) in
          (
            record {
              counted = size;
              rising = rise;
              small = small;
              state = f.state;
              taken = f.taken;
              path = f.path;
              steps = f.steps ∙ size;
              distinct = f.distinct;
              way = f.way;
            },
            λ more le. rw same (f.enough more (omega arith)),
          )
    ]
