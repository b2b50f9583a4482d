-- ===== src/Chain/OrphanPool.antt =====
-- chain/src/chain.rs: what holds of the pool of orphans after any run of calls.
use grin.Prelude.{
  ℕ, ◌≤◌, ◌≡◌, ◌≢◌, refl, inl, inr, arith, List, [], ◌∷◌, All, length, ltb, Bool-cases, Option,
  some, none, reverse,
}
use grin.Prelude.Sorting.{same, sort}
use grin.Prelude.Maps.{find, remove, put, retain, keys, All-retain, All-imply, find-remove_same}
use grin.Chain.Orphans.{
  Orphan, OrphanBlockPool, new_pool, remove_hashes, take_hashes, evict_heights, evict, is_young,
  max_orphan_size, add, remove_by_height, take_found, push_hash,
}
use grin.Chain.OrphanIndex.{put-IsAt}
use grin.Chain.OrphanBound.{
  Item, IsIn, at_height, evict_height-IsAt, Covers-heights, evict_heights-IsEvicted, retain-IsAt,
}

module _ (Block : Type 0) (Options : Type 0) (hash : Block → ℕ) (height : Block → ℕ) where
  abbrev Pool : Type 0
  Pool = OrphanBlockPool Block Options hash height

  abbrev IsIndexed : List (ℕ × List ℕ) → List (Item Block Options hash height) → Type 0
  IsIndexed idx os = All (IsIn Block Options hash height idx) os

  -- No more orphans than the bound, and each is kept under its hash and in the index at its height.
  pub record IsPool (p : Pool) : Type 0 where
    pub bounded : length (p.orphans) ≤ max_orphan_size
    pub indexed : IsIndexed (p.height_idx) (p.orphans)

  evict-IsPool :
      (now : ℕ) (p : Pool)
      → IsIndexed (p.height_idx) (p.orphans)
      → IsPool (evict Block Options hash height now p)
  unfolding evict
  evict-IsPool now p all =
      let young = retain (is_young Block Options hash height now) (p.orphans) in
      let heights = reverse (sort same (keys (p.height_idx))) in
      let r = evict_heights Block Options hash height heights young (p.height_idx) in
      let (few, kept) =
        evict_heights-IsEvicted Block Options hash height heights young (p.height_idx)
          (Covers-heights Block Options hash height (p.height_idx))
          (All-retain (IsIn Block Options hash height (p.height_idx))
            (is_young Block Options hash height now) (p.orphans) all) in
      record {
        bounded = omega arith;
        indexed = retain-IsAt Block Options hash height (r.0) (r.1) kept;
      }

  add-IsPool :
      (now : ℕ) (o : Orphan Block Options hash height) (p : Pool)
      → IsPool p
      → IsPool (add Block Options hash height now o p)
  unfolding add
  add-IsPool now o p inv =
      let os = put (hash (o.block)) o (p.orphans) in
      let idx =
        push_hash Block Options hash height (height (o.block)) (hash (o.block)) (p.height_idx) in
      let all = put-IsAt Block Options hash height o (p.orphans) (p.height_idx) (inv.indexed) in
      elim (Bool-cases (ltb max_orphan_size (length os))) [
        | inl many ↦ rw many (evict-IsPool now (record p { orphans = os; height_idx = idx }) all)
        | inr few ↦ rw few (record { bounded = ground arith; indexed = all })
      ]

  take_hashes-left :
      (hs : List ℕ) (os : List (Item Block Options hash height))
      → (take_hashes Block Options hash height hs os).1
        ≡ remove_hashes Block Options hash height hs os
  unfolding take_hashes remove_hashes
  take_hashes-left [] os = refl
  take_hashes-left (h ∷ hs) os = take_hashes-left hs (remove h os)

  length-remove :
      (k : ℕ) (os : List (Item Block Options hash height)) → length (remove k os) ≤ length os
  unfolding remove
  length-remove k [] = omega arith
  length-remove k ((j, o) ∷ os) = ground (arith, length-remove k os)

  length-remove_hashes :
      (hs : List ℕ) (os : List (Item Block Options hash height))
      → length (remove_hashes Block Options hash height hs os) ≤ length os
  unfolding remove_hashes
  length-remove_hashes [] os = omega arith
  length-remove_hashes (h ∷ hs) os =
      omega (arith, length-remove_hashes hs (remove h os), length-remove h os)

  abbrev IsElsewhere : ℕ → Item Block Options hash height → Type 0
  IsElsewhere t e = height (e.1.block) ≢ t

  -- A pool in which no orphan of this height is left.
  pub record IsWithout (t : ℕ) (p : Pool) : Type 0 where
    pub pool : IsPool p
    pub away : All (IsElsewhere t) (p.orphans)

  none_at_height :
      (t : ℕ) (idx : List (ℕ × List ℕ)) (os : List (Item Block Options hash height))
      → find t idx ≡ none
      → IsIndexed idx os
      → All (IsElsewhere t) os
  none_at_height t idx os absent all =
      All-imply (IsIn Block Options hash height idx) (IsElsewhere t) os
        (λ e h same. let there = rw (same, absent) at (h.1) in ground arith) all

  take_found-IsWithout :
      (t : ℕ) (p : Pool) (r : Option (List ℕ))
      → find t (p.height_idx) ≡ r
      → IsPool p
      → IsWithout t ((take_found Block Options hash height t p r).1)
  take_found-IsWithout t p none absent inv = record {
    pool = inv;
    away = none_at_height t (p.height_idx) (p.orphans) absent (inv.indexed);
  }
  take_found-IsWithout t p (some hs) found inv =
      let listed : at_height Block Options hash height t (p.height_idx) ≡ hs = rw found refl in
      let kept =
        rw listed at (
          evict_height-IsAt Block Options hash height t (p.height_idx) (p.orphans) (inv.indexed)) in
      let left = take_hashes-left hs (p.orphans) in
      let few = length-remove_hashes hs (p.orphans) in
      let bound = inv.bounded in
      record {
        pool = record { bounded = rw left (omega arith); indexed = rw left kept };
        away = rw left (
            none_at_height t (remove t (p.height_idx))
              (remove_hashes Block Options hash height hs (p.orphans))
              (find-remove_same t (p.height_idx)) kept);
      }

  pub remove_by_height-IsWithout :
      (t : ℕ) (p : Pool)
      → IsPool p
      → IsWithout t ((remove_by_height Block Options hash height t p).1)
  unfolding remove_by_height
  remove_by_height-IsWithout t p inv = take_found-IsWithout t p (find t (p.height_idx)) refl inv

  -- What the chain calls: a block without its parent at some time, and the children of a height.
  pub data PoolCall : Type 0 where
    add_orphan : ℕ → Orphan Block Options hash height → PoolCall
    take_height : ℕ → PoolCall

  unfoldable pub run_pool : List PoolCall → Pool → Pool
  run_pool [] p = p
  run_pool (add_orphan now o ∷ calls) p = run_pool calls (add Block Options hash height now o p)
  run_pool (take_height t ∷ calls) p =
      run_pool calls ((remove_by_height Block Options hash height t p).1)

  run_pool-keeps : (calls : List PoolCall) (p : Pool) → IsPool p → IsPool (run_pool calls p)
  unfolding run_pool
  run_pool-keeps [] p inv = inv
  run_pool-keeps (add_orphan now o ∷ calls) p inv =
      run_pool-keeps calls (add Block Options hash height now o p) (add-IsPool now o p inv)
  run_pool-keeps (take_height t ∷ calls) p inv =
      run_pool-keeps calls ((remove_by_height Block Options hash height t p).1)
        ((remove_by_height-IsWithout t p inv).pool)

  -- From the empty pool, any calls of add and remove_by_height lead to a pool with at most
  -- MAX_ORPHAN_SIZE orphans, in which each is kept under the hash of its block and listed in the index
  -- at its height; and when the orphans of a height are removed from it, none of that height is left.
  pub run_pool-IsPool :
      (calls : List PoolCall)
      → IsPool (run_pool calls (new_pool Block Options hash height))
        × ((t : ℕ)
            → IsWithout t (
                (remove_by_height Block Options hash height t
                  (run_pool calls (new_pool Block Options hash height))).1))
  run_pool-IsPool calls =
      let inv =
        run_pool-keeps calls (new_pool Block Options hash height)
          (record { bounded = omega arith; indexed = tt }) in
      (
        inv,
        λ t. remove_by_height-IsWithout t (run_pool calls (new_pool Block Options hash height)) inv,
      )
