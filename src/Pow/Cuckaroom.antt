-- ===== src/Pow/Cuckaroom.antt =====
-- core/src/pow/cuckaroom.rs: the check of a directed cycle. A vector is a function of its index: the
-- bits of a node lie within the mask, and all other indices below the size.
use grin.Prelude.{
  ℕ, zero, suc, ◌+◌, List, [], ◌∷◌, Bool, true, false, length, ltb, leb, ◌==◌, if◌then◌else◌,
  Option, some, none, Result, ok, err, bit_and, bit_xor,
}
use grin.Pow.SipHash.{siphash_block}
use grin.Pow.Params.{
  CuckooParams, PowError, wrong_cycle_length, edge_too_big, edges_not_ascending,
  endpoints_do_not_match_up, branch_in_cycle, cycle_dead_ends, cycle_too_short, mask_of, low_node,
  high_node,
}

abbrev pub update {ℓ} : {A : Type ℓ} → (ℕ → A) → ℕ → A → ℕ → A
update f k v j = if k == j then v else f j

pub record Room : Type 0 where
  pub from : ℕ → ℕ
  pub to : ℕ → ℕ
  pub head : ℕ → ℕ
  pub prev : ℕ → ℕ
  pub xor_from : ℕ
  pub xor_to : ℕ

unfoldable pub empty_room : ℕ → Room
empty_room size = record {
  from = λ n. 0;
  to = λ n. 0;
  head = λ bits. size;
  prev = λ n. 0;
  xor_from = 0;
  xor_to = 0;
}

-- `n > 0 && nonces[n] <= nonces[n - 1]`.
abbrev pub not_above : Option ℕ → ℕ → Bool
not_above none nonce = false
not_above (some last) nonce = leb nonce last

-- The edge function is siphash_block under the keys of the header.
module _ (edge_of : ℕ → ℕ) (edge_mask node_mask mask : ℕ) where
  unfoldable pub room_edge : ℕ → ℕ → Room → Room
  room_edge n nonce s =
      let edge = edge_of nonce in
      let u = low_node node_mask edge in
      let v = high_node node_mask edge in
      let bits = bit_and u mask in
      record {
        from = update (s.from) n u;
        to = update (s.to) n v;
        head = update (s.head) bits n;
        prev = update (s.prev) n (s.head bits);
        xor_from = bit_xor (s.xor_from) u;
        xor_to = bit_xor (s.xor_to) v;
      }

  unfoldable pub room_edges : ℕ → Option ℕ → List ℕ → Room → Result PowError Room
  room_edges n last [] s = ok s
  room_edges n last (nonce ∷ nonces) s =
      let rest = room_edges (n + 1) (some nonce) nonces (room_edge n nonce s) in
      if ltb edge_mask nonce
      then err edge_too_big
      else if not_above last nonce
      then err edges_not_ascending
      else rest

  -- The inner loop: along the list of a bucket to an edge from the node.
  unfoldable pub find_from : ℕ → Room → ℕ → ℕ → ℕ → Option (Result PowError ℕ)
  find_from zero s size node k = none
  find_from (suc fuel) s size node k =
      let rest = find_from fuel s size node (s.prev k) in
      if k == size
      then some (err cycle_dead_ends)
      else if s.from k == node
      then some (ok k)
      else rest

  abbrev pub at_edge {ℓ} :
      {A : Type ℓ}
      → Option (Result PowError ℕ)
      → (ℕ → Option (Result PowError A))
      → Option (Result PowError A)
  at_edge none f = none
  at_edge (some (err e)) f = some (err e)
  at_edge (some (ok k)) f = f k

  -- The outer loop, with the number of rounds as its result.
  unfoldable pub walk : ℕ → Room → ℕ → (ℕ → Bool) → ℕ → ℕ → Option (Result PowError ℕ)
  walk zero s size visited n i = none
  walk (suc fuel) s size visited n i =
      let found = find_from (size + 2) s size (s.to i) (s.head (bit_and (s.to i) mask)) in
      let next = at_edge found (λ k.
        let more = walk fuel s size (update visited i true) (n + 1) k in
        if k == 0 then some (ok (n + 1)) else more) in
      if visited i then some (err branch_in_cycle) else next

  abbrev pub room_result : ℕ → Option (Result PowError ℕ) → Option (Result PowError (Unit {0}))
  room_result size none = none
  room_result size (some (err e)) = some (err e)
  room_result size (some (ok n)) = if n == size then some (ok tt) else some (err cycle_too_short)

  unfoldable pub follow_room : ℕ → Result PowError Room → Option (Result PowError (Unit {0}))
  follow_room size (err e) = some (err e)
  follow_room size (ok s) =
      if s.xor_from == s.xor_to
      then room_result size (walk (size + 1) s size (λ i. false) 0 0)
      else some (err endpoints_do_not_match_up)

-- `none` would be a check that does not return. The proof size is that of the chain.
unfoldable pub verify_cuckaroom : ℕ → CuckooParams → List ℕ → Option (Result PowError (Unit {0}))
verify_cuckaroom proofsize params nonces =
    let size = length nonces in
    let edge_of = λ (nonce : ℕ). siphash_block (params.siphash_keys) nonce 21 true in
    let edges =
      room_edges edge_of (params.edge_mask) (params.node_mask) (mask_of size) 0 none nonces
        (empty_room size) in
    if size == proofsize
    then follow_room edge_of (params.edge_mask) (params.node_mask) (mask_of size) size edges
    else some (err wrong_cycle_length)
