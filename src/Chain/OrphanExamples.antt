-- ===== src/Chain/OrphanExamples.antt =====
-- chain/src/chain.rs: the pool of orphans on a few blocks, which are pairs of a hash and a height.
use grin.Prelude.{ℕ, zero, suc, ◌/◌, ◌≡◌, refl, List, [], ◌∷◌, length}
use grin.Prelude.Sorting.{sort, insert}
use grin.Prelude.Maps.{find, remove, retain, keys}
use grin.Chain.Orphans.{
  Orphan, OrphanBlockPool, new_pool, add, remove_by_height, evict, evict_heights, remove_hashes,
  take_hashes,
}
use grin.Chain.OrphanPool.{IsPool, IsWithout, PoolCall, add_orphan, run_pool, run_pool-IsPool}

abbrev TestBlock : Type 0
TestBlock = ℕ × ℕ

abbrev test_hash : TestBlock → ℕ
test_hash b = b.0

abbrev test_height : TestBlock → ℕ
test_height b = b.1

abbrev orphan_of : ℕ → ℕ → Orphan TestBlock ℕ test_hash test_height
orphan_of h t = record { block = (h, t); opts = 0; added = 0 }

abbrev numbered : ℕ → List (PoolCall TestBlock ℕ test_hash test_height)
numbered zero = []
numbered (suc n) = add_orphan 1 (orphan_of n (n / 2)) ∷ numbered n

abbrev three_calls : List (PoolCall TestBlock ℕ test_hash test_height)
three_calls =
    add_orphan 1 (orphan_of 70 5)
    ∷ add_orphan 2 (orphan_of 71 5)
    ∷ add_orphan 3 (orphan_of 72 6)
    ∷ []

abbrev pool_of :
    List (PoolCall TestBlock ℕ test_hash test_height)
    → OrphanBlockPool TestBlock ℕ test_hash test_height
pool_of calls =
    run_pool TestBlock ℕ test_hash test_height calls (new_pool TestBlock ℕ test_hash test_height)

-- The 201st orphan makes the two greatest heights go, with three orphans.
evicts_top : length ((pool_of (numbered 201)).orphans) ≡ 198
unfolding run_pool add evict evict_heights remove_hashes find remove retain keys sort insert
evicts_top = refl

takes_both :
    keys ((remove_by_height TestBlock ℕ test_hash test_height 5 (pool_of three_calls)).1.orphans)
    ≡ 72 ∷ []
unfolding run_pool add remove_by_height take_hashes find remove keys
takes_both = refl

run_pool-IsPool_example :
    IsPool TestBlock ℕ test_hash test_height (pool_of three_calls)
    × ((t : ℕ)
        → IsWithout TestBlock ℕ test_hash test_height t
            ((remove_by_height TestBlock ℕ test_hash test_height t (pool_of three_calls)).1))
run_pool-IsPool_example = run_pool-IsPool TestBlock ℕ test_hash test_height three_calls
