-- ===== src/Pmmr/Index.antt =====
-- core/src/core/pmmr/pmmr.rs: the functions on positions. The nodes of the range are numbered from 0
-- in postorder, and so are its leaves. Words are u64.
use grin.Prelude.{
  ℕ, zero, suc, ◌+◌, ◌-◌, bit_and, bit_or, Option, none, some, List, [], ◌∷◌, ◌++◌, map, Bool, not,
  leb, ltb, ◌==◌, if◌then◌else◌, u64_max, add64, sub64, mul64, shl64, shr64, leading_zeros,
  count_ones,
}

-- The `while` loop of peak_map_height. A round halves `peak_size`, which is below 2 ^ 64, so 64
-- rounds are enough.
unfoldable pub peak_map_loop : ℕ → ℕ → ℕ → ℕ → ℕ × ℕ
peak_map_loop zero peak_size size peak_map = (peak_map, size)
peak_map_loop (suc fuel) peak_size size peak_map =
    let shifted = shl64 peak_map 1 in
    let rest =
      peak_map_loop fuel (shr64 peak_size 1) (if leb peak_size size then size - peak_size else size)
        (if leb peak_size size then bit_or shifted 1 else shifted) in
    if peak_size == 0 then (peak_map, size) else rest

unfoldable pub peak_map_height : ℕ → ℕ × ℕ
peak_map_height size =
    if size == 0 then (0, 0) else peak_map_loop 64 (shr64 u64_max (leading_zeros size)) size 0

-- The `while` loop of peak_sizes_height.
unfoldable pub peak_sizes_loop : ℕ → ℕ → ℕ → List ℕ → List ℕ × ℕ
peak_sizes_loop zero peak_size size peak_sizes = (peak_sizes, size)
peak_sizes_loop (suc fuel) peak_size size peak_sizes =
    let rest =
      peak_sizes_loop fuel (shr64 peak_size 1)
        (if leb peak_size size then size - peak_size else size)
        (if leb peak_size size then peak_sizes ++ (peak_size ∷ []) else peak_sizes) in
    if peak_size == 0 then (peak_sizes, size) else rest

unfoldable pub peak_sizes_height : ℕ → List ℕ × ℕ
peak_sizes_height size =
    if size == 0 then ([], 0) else peak_sizes_loop 64 (shr64 u64_max (leading_zeros size)) size []

-- The `scan` of peaks, with the `map` behind it: the running sums, less one.
unfoldable pub running_sums : ℕ → List ℕ → List ℕ
running_sums acc [] = []
running_sums acc (x ∷ xs) = sub64 (add64 acc x) 1 ∷ running_sums (add64 acc x) xs

unfoldable pub peaks : ℕ → List ℕ
unfolding running_sums
peaks size =
    let (peak_sizes, height) = peak_sizes_height size in
    if height == 0 then running_sums 0 peak_sizes else []

unfoldable pub n_leaves : ℕ → ℕ
n_leaves size =
    let (peak_map, height) = peak_map_height size in
    if height == 0 then peak_map else add64 peak_map 1

unfoldable pub insertion_to_pmmr_index : ℕ → ℕ
insertion_to_pmmr_index nleaf0 = sub64 (mul64 2 nleaf0) (count_ones nleaf0)

unfoldable pub round_up_to_leaf_pos : ℕ → ℕ
round_up_to_leaf_pos pos0 =
    let (insert_idx, height) = peak_map_height pos0 in
    insertion_to_pmmr_index (if height == 0 then insert_idx else add64 insert_idx 1)

unfoldable pub pmmr_leaf_to_insertion_index : ℕ → Option ℕ
pmmr_leaf_to_insertion_index pos0 =
    let (insert_idx, height) = peak_map_height pos0 in if height == 0 then some insert_idx else none

unfoldable pub bintree_postorder_height : ℕ → ℕ
bintree_postorder_height pos0 = (peak_map_height pos0).1

unfoldable pub is_leaf : ℕ → Bool
is_leaf pos0 = bintree_postorder_height pos0 == 0

-- The positions of the parent and of the sibling.
unfoldable pub family : ℕ → ℕ × ℕ
family pos0 =
    let (peak_map, height) = peak_map_height pos0 in
    let peak = shl64 1 height in
    if not (bit_and peak_map peak == 0)
    then (add64 pos0 1, sub64 (add64 pos0 1) (mul64 2 peak))
    else (add64 pos0 (mul64 2 peak), sub64 (add64 pos0 (mul64 2 peak)) 1)

unfoldable pub is_left_sibling : ℕ → Bool
is_left_sibling pos0 =
    let (peak_map, height) = peak_map_height pos0 in bit_and peak_map (shl64 1 height) == 0

-- The `while` loop of family_branch. A round moves `current` up, so `size` rounds are enough.
unfoldable pub family_branch_loop : ℕ → ℕ → ℕ → ℕ → ℕ → List (ℕ × ℕ)
family_branch_loop zero peak_map size peak current = []
family_branch_loop (suc fuel) peak_map size peak current =
    let right = not (bit_and peak_map peak == 0) in
    let parent = if right then add64 current 1 else add64 current (mul64 2 peak) in
    let sibling = if right then sub64 parent (mul64 2 peak) else sub64 parent 1 in
    let rest = (parent, sibling) ∷ family_branch_loop fuel peak_map size (shl64 peak 1) parent in
    let inner = if leb size parent then [] else rest in
    if ltb (add64 current 1) size then inner else []

unfoldable pub family_branch : ℕ → ℕ → List (ℕ × ℕ)
family_branch pos0 size =
    let (peak_map, height) = peak_map_height pos0 in
    family_branch_loop size peak_map size (shl64 1 height) pos0

unfoldable pub bintree_rightmost : ℕ → ℕ
bintree_rightmost pos0 = sub64 pos0 (bintree_postorder_height pos0)

unfoldable pub bintree_leftmost : ℕ → ℕ
bintree_leftmost pos0 = sub64 (add64 pos0 2) (shl64 2 (bintree_postorder_height pos0))

-- The values from `start` on, `count` of them.
abbrev pub count_up : ℕ → ℕ → List ℕ
count_up start zero = []
count_up start (suc count) = start ∷ count_up (suc start) count

-- `start..=end` is empty where `end` is below `start`.
unfoldable pub bintree_leaf_pos_iter : ℕ → List ℕ
bintree_leaf_pos_iter pos0 = elim (pmmr_leaf_to_insertion_index (bintree_leftmost pos0)) [
  | none ↦ []
  | some leaf_start ↦ elim (pmmr_leaf_to_insertion_index (bintree_rightmost pos0)) [
    | none ↦ []
    | some leaf_end ↦ map insertion_to_pmmr_index (count_up leaf_start (leaf_end + 1 - leaf_start))
  ]
]

unfoldable pub bintree_pos_iter : ℕ → List ℕ
bintree_pos_iter pos0 = count_up (bintree_leftmost pos0) (pos0 + 1 - bintree_leftmost pos0)

-- The ends of the half-open range.
unfoldable pub bintree_range : ℕ → ℕ × ℕ
bintree_range pos0 = (sub64 (add64 pos0 2) (shl64 2 (bintree_postorder_height pos0)), add64 pos0 1)
