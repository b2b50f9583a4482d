-- ===== src/Pow/Cuckarood.antt =====
-- core/src/pow/cuckarood.rs: the check of a cycle whose edges alternate in direction. A vector is a
-- function of its index, as in Pow/Cuckaroom.antt.
use grin.Prelude.{
  ℕ, zero, suc, ◌+◌, ◌*◌, ◌/◌, List, [], ◌∷◌, length, ltb, leb, ◌==◌, if◌then◌else◌, Option, some,
  none, Result, ok, err, bit_and, bit_or, bit_xor, shl64, false,
}
use grin.Pow.SipHash.{siphash_block}
use grin.Pow.Params.{
  CuckooParams, PowError, wrong_cycle_length, edge_too_big, edges_not_ascending, edges_not_balanced,
  endpoints_do_not_match_up, branch_in_cycle, cycle_dead_ends, cycle_too_short, mask_of, low_node,
  high_node,
}
use grin.Pow.Cuckaroom.{update, not_above}

pub record Rood : Type 0 where
  pub uvs : ℕ → ℕ
  pub ndir : ℕ → ℕ
  pub headu : ℕ → ℕ
  pub headv : ℕ → ℕ
  pub prev : ℕ → ℕ
  pub xor0 : ℕ
  pub xor1 : ℕ

unfoldable pub empty_rood : ℕ → Rood
empty_rood size = record {
  uvs = λ n. 0;
  ndir = λ dir. 0;
  headu = λ bits. 2 * size;
  headv = λ bits. 2 * size;
  prev = λ n. 0;
  xor0 = 0;
  xor1 = 0;
}

-- The edge function is siphash_block under the keys of the header.
module _ (edge_of : ℕ → ℕ) (edge_mask node_mask mask : ℕ) where
  unfoldable pub rood_edge : ℕ → Rood → Rood
  rood_edge nonce s =
      let dir = bit_and nonce 1 in
      let edge = edge_of nonce in
      let idx = 4 * s.ndir dir + 2 * dir in
      let u = low_node node_mask edge in
      let v = high_node node_mask edge in
      let ubits = bit_and (bit_or (shl64 u 1) dir) mask in
      let vbits = bit_and (bit_or (shl64 v 1) dir) mask in
      record {
        uvs = update (update (s.uvs) idx u) (idx + 1) v;
        ndir = update (s.ndir) dir (s.ndir dir + 1);
        headu = update (s.headu) ubits idx;
        headv = update (s.headv) vbits (idx + 1);
        prev = update (update (s.prev) idx (s.headu ubits)) (idx + 1) (s.headv vbits);
        xor0 = bit_xor (s.xor0) u;
        xor1 = bit_xor (s.xor1) v;
      }

  unfoldable pub rood_edges : ℕ → Option ℕ → List ℕ → Rood → Result PowError Rood
  rood_edges size last [] s = ok s
  rood_edges size last (nonce ∷ nonces) s =
      let rest = rood_edges size (some nonce) nonces (rood_edge nonce s) in
      if leb (size / 2) (s.ndir (bit_and nonce 1))
      then err edges_not_balanced
      else if ltb edge_mask nonce
      then err edge_too_big
      else if not_above last nonce
      then err edges_not_ascending
      else rest

  -- The inner loop: along a whole list, to the one endpoint in it that is at the node of `i`.
  unfoldable pub find_reverse : ℕ → Rood → ℕ → ℕ → ℕ → ℕ → Option (Result PowError ℕ)
  find_reverse zero s size i j k = none
  find_reverse (suc fuel) s size i j k =
      let matched = find_reverse fuel s size i k (s.prev k) in
      let rest = find_reverse fuel s size i j (s.prev k) in
      if k == 2 * size
      then some (ok j)
      else if s.uvs k == s.uvs i
      then (if j == i then matched else some (err branch_in_cycle))
      else rest

  abbrev pub other_end : ℕ → Option (Result PowError ℕ) → Option (Result PowError ℕ)
  other_end i none = none
  other_end i (some (err e)) = some (err e)
  other_end i (some (ok j)) = if j == i then some (err cycle_dead_ends) else some (ok (bit_xor j 1))

  -- One round of the outer loop, from the endpoint `i` to the next one.
  unfoldable pub next_end : Rood → ℕ → ℕ → Option (Result PowError ℕ)
  next_end s size i =
      let start =
        if bit_and i 1 == 0
        then s.headu (bit_and (bit_or (shl64 (s.uvs i) 1) 1) mask)
        else s.headv (bit_and (shl64 (s.uvs i) 1) mask) in
      other_end i (find_reverse (2 * size + 1) s size i i start)

  abbrev pub at_end {ℓ} :
      {A : Type ℓ}
      → Option (Result PowError ℕ)
      → (ℕ → Option (Result PowError A))
      → Option (Result PowError A)
  at_end none f = none
  at_end (some (err e)) f = some (err e)
  at_end (some (ok i)) f = f i

  -- The outer loop, with the number of rounds as its result.
  unfoldable pub walk_rood : ℕ → Rood → ℕ → ℕ → ℕ → Option (Result PowError ℕ)
  walk_rood zero s size n i = none
  walk_rood (suc fuel) s size n i = at_end (next_end s size i) (λ k.
      let more = walk_rood fuel s size (n + 1) k in if k == 0 then some (ok (n + 1)) else more)

  abbrev pub rood_result : ℕ → Option (Result PowError ℕ) → Option (Result PowError (Unit {0}))
  rood_result size none = none
  rood_result size (some (err e)) = some (err e)
  rood_result size (some (ok n)) = if n == size then some (ok tt) else some (err cycle_too_short)

  unfoldable pub follow_rood : ℕ → ℕ → Result PowError Rood → Option (Result PowError (Unit {0}))
  follow_rood fuel size (err e) = some (err e)
  follow_rood fuel size (ok s) =
      if bit_or (s.xor0) (s.xor1) == 0
      then rood_result size (walk_rood fuel s size 0 0)
      else some (err endpoints_do_not_match_up)

-- At most `fuel` rounds of the outer loop are run: `none` is a check that has not returned by then.
unfoldable pub verify_cuckarood :
    ℕ → ℕ → CuckooParams → List ℕ → Option (Result PowError (Unit {0}))
verify_cuckarood fuel proofsize params nonces =
    let size = length nonces in
    let edge_of = λ (nonce : ℕ). siphash_block (params.siphash_keys) nonce 25 false in
    let edges =
      rood_edges edge_of (params.edge_mask) (params.node_mask) (mask_of size) size none nonces
        (empty_rood size) in
    if size == proofsize
    then follow_rood edge_of (params.edge_mask) (params.node_mask) (mask_of size) fuel size edges
    else some (err wrong_cycle_length)
