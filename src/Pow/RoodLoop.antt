-- ===== src/Pow/RoodLoop.antt =====
-- core/src/pow/cuckarood.rs: when the check does not return.
use grin.Prelude.{
  ℕ, zero, suc, ◌+◌, ◌<◌, ◌≡◌, ◌⊎◌, inl, inr, refl, arith, List, length, ◌==◌, Option, some, none,
  Result, ok, true, false, bit_or,
}
use grin.Pow.SipHash.{siphash_block}
use grin.Pow.Params.{CuckooParams, PowError, mask_of}
use grin.Pow.Cuckarood.{
  Rood, empty_rood, rood_edges, next_end, walk_rood, follow_rood, verify_cuckarood,
}

-- From one endpoint to another in one or more rounds of the outer loop, none of which ends it.
pub data Leads (next : ℕ → Option (Result PowError ℕ)) : ℕ → ℕ → Type 0 where
  one : {i j : ℕ} → next i ≡ some (ok j) → (j == 0) ≡ false → Leads next i j
  more : {i j k : ℕ} → next i ≡ some (ok j) → (j == 0) ≡ false → Leads next j k → Leads next i k

module _ (edge_of : ℕ → ℕ) (edge_mask node_mask mask : ℕ) where
  abbrev walk_on : ℕ → Rood → ℕ → ℕ → ℕ → Option (Result PowError ℕ)
  walk_on = walk_rood edge_of edge_mask node_mask mask

  walk_rood-Leads :
      (s : Rood) (size : ℕ) {i k : ℕ} (fuel : ℕ)
      → Leads (next_end edge_of edge_mask node_mask mask s size) i k
      → ((f : ℕ) → f < fuel → (n : ℕ) → walk_on f s size n k ≡ none)
      → (n : ℕ) → walk_on fuel s size n i ≡ none
  unfolding walk_rood
  walk_rood-Leads s size zero l h n = refl
  walk_rood-Leads s size (suc f) (one e nz) h n = rw (e, nz) (h f (omega arith) (n + 1))
  walk_rood-Leads s size (suc f) (more e nz l) h n =
      rw (e, nz) (walk_rood-Leads s size f l (λ g lt. h g (omega arith)) (n + 1))

  -- A walk that comes back to an endpoint goes on for ever.
  walk_rood-none :
      (s : Rood) (size i bound fuel : ℕ)
      → fuel < bound
      → Leads (next_end edge_of edge_mask node_mask mask s size) i i
      → (n : ℕ) → walk_on fuel s size n i ≡ none
  walk_rood-none s size i zero fuel lt l n = absurd (omega arith)
  walk_rood-none s size i (suc bound) fuel lt l n =
      walk_rood-Leads s size fuel l (λ f less. walk_rood-none s size i bound f (omega arith) l) n

  pub follow_rood-none :
      (fuel size i : ℕ) (s : Rood)
      → (bit_or (s.xor0) (s.xor1) == 0) ≡ true
      → (i ≡ 0) ⊎ Leads (next_end edge_of edge_mask node_mask mask s size) 0 i
      → Leads (next_end edge_of edge_mask node_mask mask s size) i i
      → follow_rood edge_of edge_mask node_mask mask fuel size (ok s) ≡ none
  unfolding follow_rood
  follow_rood-none fuel size i s match (inl e) l =
      rw (match, walk_rood-none s size 0 (fuel + 1) fuel (omega arith) (rw e at l) 0) refl
  follow_rood-none fuel size i s match (inr first) l =
      rw (match, walk_rood-Leads s size fuel first (λ f lt. walk_rood-none s size i fuel f lt l) 0)
        refl

-- One round of the check of these nonces, from the endpoint with this index.
abbrev pub round_of : CuckooParams → List ℕ → Rood → ℕ → Option (Result PowError ℕ)
round_of params nonces s =
    next_end (λ (nonce : ℕ). siphash_block (params.siphash_keys) nonce 25 false) (params.edge_mask)
      (params.node_mask) (mask_of (length nonces)) s (length nonces)

abbrev pub edges_of : CuckooParams → List ℕ → Result PowError Rood
edges_of params nonces =
    rood_edges (λ (nonce : ℕ). siphash_block (params.siphash_keys) nonce 25 false)
      (params.edge_mask) (params.node_mask) (mask_of (length nonces)) (length nonces) none nonces
      (empty_rood (length nonces))

-- The check of a proof of the right size, whose edges are taken and whose endpoints match up, has not
-- returned after any number of rounds, when its walk reaches an endpoint from which it comes back to
-- that endpoint without a round that ends it.
pub verify_cuckarood-none :
    (fuel proofsize i : ℕ) (params : CuckooParams) (nonces : List ℕ) (s : Rood)
    → (length nonces == proofsize) ≡ true
    → edges_of params nonces ≡ ok s
    → (bit_or (s.xor0) (s.xor1) == 0) ≡ true
    → (i ≡ 0) ⊎ Leads (round_of params nonces s) 0 i
    → Leads (round_of params nonces s) i i
    → verify_cuckarood fuel proofsize params nonces ≡ none
unfolding verify_cuckarood
verify_cuckarood-none fuel proofsize i params nonces s size taken match first again =
    rw (size, taken)
      (follow_rood-none (λ (nonce : ℕ). siphash_block (params.siphash_keys) nonce 25 false)
        (params.edge_mask) (params.node_mask) (mask_of (length nonces)) fuel (length nonces) i s
        match first again)
