-- ===== src/Chain/Orphans.antt =====
-- chain/src/chain.rs: the pool of blocks whose parents are not there yet.
use grin.Prelude.{
  ℕ, ◌-◌, ◌*◌, List, [], ◌∷◌, ◌++◌, Bool, any, length, ltb, if◌then◌else◌, Option, some, none,
  reverse, add64,
}
use grin.Prelude.Sorting.{same, sort}
use grin.Prelude.Maps.{elem, find, remove, put, retain, keys}

abbrev pub max_orphan_size : ℕ
max_orphan_size = 200

abbrev max_orphan_age_secs : ℕ
max_orphan_age_secs = 300

abbrev nanos_per_sec : ℕ
nanos_per_sec = 1000000000

-- A block and the options of its processing are what the pool is asked to keep. Times are in
-- nanoseconds.
module _ (Block : Type 0) (Options : Type 0) (hash : Block → ℕ) (height : Block → ℕ) where
  pub record Orphan : Type 0 where
    pub block : Block
    pub opts : Options
    pub added : ℕ

  pub record OrphanBlockPool : Type 0 where
    pub orphans : List (ℕ × Orphan)
    pub height_idx : List (ℕ × List ℕ)
    pub evicted : ℕ

  abbrev pub new_pool : OrphanBlockPool
  new_pool = record { orphans = []; height_idx = []; evicted = 0 }

  abbrev pub pool_len : OrphanBlockPool → ℕ
  pool_len p = length (p.orphans)

  -- `entry(height).or_default()` and the push.
  abbrev pub hashes_or_default : Option (List ℕ) → List ℕ
  hashes_or_default none = []
  hashes_or_default (some hs) = hs

  abbrev pub hashes_at : ℕ → List (ℕ × List ℕ) → List ℕ
  hashes_at t idx = hashes_or_default (find t idx)

  abbrev pub push_hash : ℕ → ℕ → List (ℕ × List ℕ) → List (ℕ × List ℕ)
  push_hash t h idx = put t (hashes_at t idx ++ h ∷ []) idx

  unfoldable pub remove_hashes : List ℕ → List (ℕ × Orphan) → List (ℕ × Orphan)
  remove_hashes [] os = os
  remove_hashes (h ∷ hs) os = remove_hashes hs (remove h os)

  -- The loop over the heights, the greatest first.
  unfoldable pub evict_heights :
      List ℕ → List (ℕ × Orphan) → List (ℕ × List ℕ) → List (ℕ × Orphan) × List (ℕ × List ℕ)
  evict_heights [] os idx = (os, idx)
  evict_heights (t ∷ ts) os idx =
      let left = remove_hashes (hashes_at t idx) os in
      let rest = evict_heights ts left (remove t idx) in
      if ltb (length left) max_orphan_size then (left, remove t idx) else rest

  -- The source reads the clock for each orphan; here all ages are taken at one reading, `now`.
  abbrev pub is_young : ℕ → ℕ → Orphan → Bool
  is_young now h o = ltb (now - o.added) (max_orphan_age_secs * nanos_per_sec)

  -- The hashes of a height of which one is in the pool.
  abbrev pub any_kept : List (ℕ × Orphan) → ℕ → List ℕ → Bool
  any_kept os t hs = any (λ h. elem h (keys os)) hs

  unfoldable pub evict : ℕ → OrphanBlockPool → OrphanBlockPool
  evict now p =
      let old_len = length (p.orphans) in
      let heights = reverse (sort same (keys (p.height_idx))) in
      let (os, idx) = evict_heights heights (retain (is_young now) (p.orphans)) (p.height_idx) in
      record {
        orphans = os;
        height_idx = retain (any_kept os) idx;
        evicted = add64 (p.evicted) (old_len - length os);
      }

  unfoldable pub add : ℕ → Orphan → OrphanBlockPool → OrphanBlockPool
  add now orphan p =
      let h = hash (orphan.block) in
      let taken = record p {
        orphans = put h orphan (p.orphans);
        height_idx = push_hash (height (orphan.block)) h (p.height_idx);
      } in
      if ltb max_orphan_size (length (taken.orphans)) then evict now taken else taken

  abbrev pub found_first : Option Orphan → List Orphan → List Orphan
  found_first none taken = taken
  found_first (some o) taken = o ∷ taken

  -- `filter_map` with the removal: what is found, and what is left.
  unfoldable pub take_hashes : List ℕ → List (ℕ × Orphan) → List Orphan × List (ℕ × Orphan)
  take_hashes [] os = ([], os)
  take_hashes (h ∷ hs) os =
      let (taken, left) = take_hashes hs (remove h os) in (found_first (find h os) taken, left)

  abbrev pub take_found :
      ℕ → OrphanBlockPool → Option (List ℕ) → Option (List Orphan) × OrphanBlockPool
  take_found t p none = (none, p)
  take_found t p (some hs) =
      let (taken, left) = take_hashes hs (p.orphans) in
      (some taken, record p { orphans = left; height_idx = remove t (p.height_idx) })

  unfoldable pub remove_by_height : ℕ → OrphanBlockPool → Option (List Orphan) × OrphanBlockPool
  remove_by_height t p = take_found t p (find t (p.height_idx))

  abbrev pub contains : ℕ → OrphanBlockPool → Bool
  contains h p = elem h (keys (p.orphans))
