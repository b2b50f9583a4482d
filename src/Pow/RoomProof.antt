-- ===== src/Pow/RoomProof.antt =====
-- core/src/pow/cuckaroom.rs: what an accepted proof is.
use grin.Prelude.{
  ℕ, ◌+◌, ◌<◌, ◌≤◌, ◌≡◌, ◌⊎◌, inl, inr, refl, arith, List, [], ◌∷◌, length, All, ◌==◌, Bool-cases,
  ==_iff, Option, some, none, Result, ok, err, true,
}
use grin.Pow.SipHash.{siphash_block}
use grin.Pow.Params.{
  CuckooParams, PowError, wrong_cycle_length, cycle_too_short, endpoints_do_not_match_up, mask_of,
}
use grin.Pow.Cuckaroom.{Room, empty_room, room_edges, follow_room, verify_cuckaroom}
use grin.Pow.RoomLists.{IsRising, nth, from_node, to_node, IsListed, IsTaken, room_edges-IsTaken}
use grin.Pow.RoomCycle.{IsChain, IsClosed, walk-ends}

-- The nonces rise up to the mask, and their edges are one directed cycle: the path goes through each.
pub record IsCycleProof (from to : ℕ → ℕ) (edge_mask proofsize : ℕ) (nonces : List ℕ) : Type 0 where
  pub counted : length nonces ≡ proofsize
  pub rising : IsRising none nonces
  pub small : All (λ x. x ≤ edge_mask) nonces
  pub path : List ℕ
  pub cycle : IsClosed (λ k. from (nth nonces k)) (λ k. to (nth nonces k)) proofsize proofsize path

from_zero : (n : ℕ) → 0 + n ≡ n
from_zero n = omega arith

IsChain-same :
    (from to from' to' : ℕ → ℕ) (size next : ℕ) (path : List ℕ)
    → ((k : ℕ) → k < size → from k ≡ from' k)
    → ((k : ℕ) → k < size → to k ≡ to' k)
    → next < size
    → All (λ k. k < size) path
    → IsChain from to next path
    → IsChain from' to' next path
IsChain-same from to from' to' size next [] f t lt all c = c
IsChain-same from to from' to' size next (i ∷ path) f t lt (below, all) (e, c) =
    (rw (← f next lt, ← t i below) e, IsChain-same from to from' to' size i path f t below all c)

module _ (edge_of : ℕ → ℕ) (edge_mask node_mask mask : ℕ) where
  empty_room-IsListed :
      (size : ℕ) → IsListed edge_of edge_mask node_mask mask size 0 (empty_room size)
  unfolding empty_room
  empty_room-IsListed size = record { heads = λ b. inl refl; prevs = λ k lt. absurd (omega arith) }

  abbrev FollowEnds : ℕ → List ℕ → Option (Result PowError (Unit {0})) → Type 0
  FollowEnds size nonces r =
      ((e : PowError) × (r ≡ some (err e)))
      ⊎ ((r ≡ some (ok tt))
          × IsCycleProof (from_node edge_of node_mask) (to_node edge_of node_mask) edge_mask size
              nonces)

  IsCycleProof-taken :
      (nonces path : List ℕ) (t : Room)
      → 0 < length nonces
      → IsTaken edge_of edge_mask node_mask mask
          (length nonces)
          0
          none
          nonces
          (empty_room (length nonces))
          t
      → IsClosed (t.from) (t.to) (length nonces) (length nonces) path
      → IsCycleProof
          (from_node edge_of node_mask)
          (to_node edge_of node_mask)
          edge_mask
          (length nonces)
          nonces
  IsCycleProof-taken nonces path t pos k c = record {
    counted = refl;
    rising = k.rising;
    small = k.small;
    path = path;
    cycle = record {
      steps = c.steps;
      within = c.within;
      distinct = c.distinct;
      chain =
          IsChain-same (t.from) (t.to) (λ i. from_node edge_of node_mask (nth nonces i))
            (λ i. to_node edge_of node_mask (nth nonces i)) (length nonces) 0 path
            (λ i lt. rw (from_zero i) at (k.froms i lt)) (λ i lt. rw (from_zero i) at (k.tos i lt))
            pos (c.within) (c.chain);
    };
  }

  followed :
      (nonces : List ℕ) (t : Room)
      → 0 < length nonces
      → IsTaken edge_of edge_mask node_mask mask
          (length nonces)
          0
          none
          nonces
          (empty_room (length nonces))
          t
      → FollowEnds
          (length nonces)
          nonces
          (follow_room edge_of edge_mask node_mask mask (length nonces) (ok t))
  unfolding follow_room
  followed nonces t pos k = elim (Bool-cases (t.xor_from == t.xor_to)) [
    | inr apart ↦ rw apart (inl (endpoints_do_not_match_up, refl))
    | inl match ↦
        elim (walk-ends edge_of edge_mask node_mask mask t (length nonces) pos
          (rw (from_zero (length nonces)) at (k.listed))) [
            | inl (e, failed) ↦ rw (match, failed) (inl (e, refl))
            | inr (m, walked, (path, c)) ↦ elim (Bool-cases (m == length nonces)) [
              | inr short ↦ rw (match, walked, short) (inl (cycle_too_short, refl))
              | inl all ↦
                  rw (match, walked, all)
                    (inr (
                      refl,
                      IsCycleProof-taken nonces path t pos k
                          (rw ((==_iff m (length nonces)).0 all) at c),
                    ))
            ]
          ]
  ]

  followed_result :
      (nonces : List ℕ) (r : Result PowError Room)
      → 0 < length nonces
      → room_edges edge_of edge_mask node_mask mask 0 none nonces (empty_room (length nonces)) ≡ r
      → FollowEnds
          (length nonces)
          nonces
          (follow_room edge_of edge_mask node_mask mask (length nonces) r)
  unfolding follow_room
  followed_result nonces (err e) pos h = inl (e, refl)
  followed_result nonces (ok t) pos h = followed nonces t pos (
      room_edges-IsTaken edge_of edge_mask node_mask mask (length nonces) 0 none nonces
        (empty_room (length nonces)) t (empty_room-IsListed (length nonces)) h)

abbrev pub edge_hash : CuckooParams → ℕ → ℕ
edge_hash params nonce = siphash_block (params.siphash_keys) nonce 21 true

-- The check of a proof returns, for every list of nonces and a proof size above 0. When it accepts,
-- there are as many nonces as the proof size, they rise and are within the edge mask, and their edges
-- are one directed cycle: a path through all of them, each once, in which an edge ends at the node
-- where the next one begins and the last one ends where the first begins.
pub verify_cuckaroom-IsCycleProof :
    (proofsize : ℕ) (params : CuckooParams) (nonces : List ℕ)
    → 0 < proofsize
    → ((e : PowError) × (verify_cuckaroom proofsize params nonces ≡ some (err e)))
      ⊎ ((verify_cuckaroom proofsize params nonces ≡ some (ok tt))
          × IsCycleProof
              (from_node (edge_hash params) (params.node_mask))
              (to_node (edge_hash params) (params.node_mask))
              (params.edge_mask)
              proofsize
              nonces)
unfolding verify_cuckaroom
verify_cuckaroom-IsCycleProof proofsize params nonces pos =
    elim (Bool-cases (length nonces == proofsize)) [
      | inr other ↦ rw other (inl (wrong_cycle_length, refl))
      | inl same ↦
          let e = (==_iff (length nonces) proofsize).0 same in
          rw (same, ← e)
            (followed_result (edge_hash params) (params.edge_mask) (params.node_mask)
              (mask_of (length nonces)) nonces
              (room_edges (edge_hash params) (params.edge_mask) (params.node_mask)
                (mask_of (length nonces)) 0 none nonces (empty_room (length nonces)))
              (rw e pos) refl)
    ]
