-- ===== src/Pmmr/Range.antt =====
-- core/src/core/pmmr/pmmr.rs: the range itself, over the backend in memory. An element is hashed with
-- its position by `hash_with_index`, and a node's two children with the node's position by
-- `hash_children`; a hash is a number, and ZERO_HASH is 0.
use grin.Prelude.{
  ℕ, zero, suc, ◌+◌, Option, none, some, List, [], ◌∷◌, ◌++◌, reverse, Bool, true, false, Result,
  ok, err, leb, ltb, ◌==◌, if◌then◌else◌, add64, sub64, mul64, shl64, bit_and,
}
use grin.Prelude.Try.{◌>>=◌}
use grin.Pmmr.Index.{
  peak_map_height, round_up_to_leaf_pos, is_leaf, bintree_postorder_height, peaks, family_branch,
  count_up,
}
use grin.Pmmr.MerkleProof.{MerkleProof}
use grin.Pmmr.VecBackend.{
  VecBackend, append, get_hash, get_data, get_from_file, get_peak_from_file, get_data_from_file,
  remove, rewind_backend,
}

pub data PmmrError : Type 0 where
  bad_mmr_size : PmmrError
  missing_left_sibling : PmmrError
  not_a_leaf : PmmrError
  no_element : PmmrError
  no_root : PmmrError
  parent_mismatch : ℕ → PmmrError

abbrev pub zero_hash : ℕ
zero_hash = 0

abbrev pub ok_or : Option ℕ → PmmrError → Result PmmrError ℕ
ok_or none e = err e
ok_or (some h) e = ok h

abbrev pub read_next : Option ℕ → List ℕ → List ℕ
read_next none rest = rest
read_next (some h) rest = h ∷ rest

-- `filter_map` with a reading.
unfoldable pub read_all : (ℕ → Option ℕ) → List ℕ → List ℕ
read_all get [] = []
read_all get (x ∷ xs) = read_next (get x) (read_all get xs)

abbrev pub keep : (ℕ → Bool) → List ℕ → List ℕ
keep p [] = []
keep p (x ∷ xs) = let rest = keep p xs in if p x then x ∷ rest else rest

abbrev pub with_rhs : List ℕ → Option ℕ → List ℕ
with_rhs res none = res
with_rhs res (some rhs) = res ++ rhs ∷ []

abbrev pub siblings : List (ℕ × ℕ) → List ℕ
siblings [] = []
siblings ((parent, sibling) ∷ branch) = sibling ∷ siblings branch

abbrev pub last_parent : ℕ → List (ℕ × ℕ) → ℕ
last_parent pos0 [] = pos0
last_parent pos0 ((parent, sibling) ∷ branch) = last_parent parent branch

module _ (hash_children : ℕ → ℕ → ℕ → ℕ) where
  -- A peak is hashed with all that is to the right of it.
  abbrev pub bag_one : ℕ → ℕ → Option ℕ → ℕ
  bag_one size peak none = peak
  bag_one size peak (some rhash) = hash_children size peak rhash

  -- The loop over the peaks in reverse order.
  unfoldable pub bag : ℕ → List ℕ → Option ℕ
  bag size [] = none
  bag size (peak ∷ ps) = some (bag_one size peak (bag size ps))

  abbrev pub check_children : ℕ → ℕ → Option ℕ → Option ℕ → Result PmmrError (Unit {0})
  check_children n hash (some left) (some right) =
      if hash_children n left right == hash then ok tt else err (parent_mismatch (n + 1))
  check_children n hash _ _ = ok tt

pub record Pmmr (T : Type 0) : Type 0 where
  pub size : ℕ
  pub backend : VecBackend T

module _ {T : Type 0} where
  abbrev pub at : VecBackend T → ℕ → Pmmr T
  at backend size = record { size = size; backend = backend }

  abbrev pub within {ℓ} : {A : Type ℓ} → Pmmr T → ℕ → Option A → Option A
  within p pos0 r = if leb (p.size) pos0 then none else r

  -- What stands at a position, the removed leaves left out.
  unfoldable pub hash_of : Pmmr T → ℕ → Option ℕ
  hash_of p pos0 =
      within p pos0
        (if is_leaf pos0 then get_hash (p.backend) pos0 else get_from_file (p.backend) pos0)

  unfoldable pub data_of : Pmmr T → ℕ → Option T
  data_of p pos0 = within p pos0 (if is_leaf pos0 then get_data (p.backend) pos0 else none)

  unfoldable pub from_file : Pmmr T → ℕ → Option ℕ
  from_file p pos0 = within p pos0 (get_from_file (p.backend) pos0)

  unfoldable pub peak_from_file : Pmmr T → ℕ → Option ℕ
  peak_from_file p pos0 = within p pos0 (get_peak_from_file (p.backend) pos0)

  unfoldable pub data_from_file : Pmmr T → ℕ → Option T
  data_from_file p pos0 = within p pos0 (get_data_from_file (p.backend) pos0)

  abbrev pub is_empty : Pmmr T → Bool
  is_empty p = p.size == 0

  unfoldable pub peak_hashes : Pmmr T → List ℕ
  peak_hashes p = read_all (peak_from_file p) (peaks (p.size))

  unfoldable pub rewind : ℕ → Pmmr T → Pmmr T
  rewind position p =
      let leaf_pos = round_up_to_leaf_pos position in
      record { size = leaf_pos; backend = rewind_backend leaf_pos (p.backend) }

  unfoldable pub prune : ℕ → Pmmr T → Result PmmrError (Bool × Pmmr T)
  prune pos0 p =
      let pruned : Bool × Pmmr T = elim (get_hash (p.backend) pos0) [
        | none ↦ (false, p)
        | some h ↦ (true, record p { backend = remove pos0 (p.backend) })
      ] in
      if is_leaf pos0 then ok pruned else err not_a_leaf

module _ {T : Type 0} (hash_children : ℕ → ℕ → ℕ → ℕ) where
  unfoldable pub bag_the_rhs : Pmmr T → ℕ → Option ℕ
  bag_the_rhs p peak_pos0 =
      bag hash_children (p.size)
        (read_all (from_file p) (keep (λ x. ltb peak_pos0 x) (peaks (p.size))))

  unfoldable pub peak_path : Pmmr T → ℕ → List ℕ
  peak_path p peak_pos0 = reverse (
      with_rhs (read_all (peak_from_file p) (keep (λ x. ltb x peak_pos0) (peaks (p.size))))
        (bag_the_rhs p peak_pos0))

  unfoldable pub root : Pmmr T → Result PmmrError ℕ
  root p =
      if is_empty p
      then ok zero_hash
      else ok_or (bag hash_children (p.size) (peak_hashes p)) no_root

  unfoldable pub merkle_proof : Pmmr T → ℕ → Result PmmrError MerkleProof
  merkle_proof p pos0 =
      let branch = family_branch pos0 (p.size) in
      let path =
        read_all (from_file p) (siblings branch) ++ peak_path p (last_parent pos0 branch) in
      if is_leaf pos0
      then (ok_or (hash_of p pos0) no_element >>= λ h.
          ok (record { mmr_size = p.size; path = path }))
      else err not_a_leaf

  -- The check of one position.
  unfoldable pub validate_node : Pmmr T → ℕ → Result PmmrError (Unit {0})
  validate_node p n =
      let height = bintree_postorder_height n in
      let checked : Result PmmrError (Unit {0}) = elim (hash_of p n) [
        | none ↦ ok tt
        | some hash ↦
            check_children hash_children n hash (from_file p (sub64 n (shl64 1 height)))
              (from_file p (sub64 n 1))
      ] in
      if height == 0 then ok tt else checked

  unfoldable pub validate_all : Pmmr T → List ℕ → Result PmmrError (Unit {0})
  validate_all p [] = ok tt
  validate_all p (n ∷ ns) = validate_node p n >>= λ _. validate_all p ns

  unfoldable pub validate : Pmmr T → Result PmmrError (Unit {0})
  validate p = validate_all p (count_up 0 (p.size))

  -- The loop over the peaks in front. After 64 rounds `peak` is 0, and the loop has ended.
  unfoldable pub push_loop :
      ℕ → VecBackend T → ℕ → ℕ → ℕ → ℕ → List ℕ → Result PmmrError (List ℕ × ℕ)
  push_loop zero b peak_map peak pos current hashes = ok (hashes, pos)
  push_loop (suc fuel) b peak_map peak pos current hashes =
      let left = get_peak_from_file b (sub64 (add64 pos 1) (mul64 2 peak)) in
      let next = ok_or left missing_left_sibling >>= λ left_hash.
      let parent = hash_children (add64 pos 1) left_hash current in
      push_loop fuel b peak_map (mul64 peak 2) (add64 pos 1) parent (hashes ++ parent ∷ []) in
      if bit_and peak_map peak == 0 then ok (hashes, pos) else next

  -- The position of the new leaf, and the range with it.
  unfoldable pub push : (T → ℕ → ℕ) → T → Pmmr T → Result PmmrError (ℕ × Pmmr T)
  push hash_with_index leaf p =
      let (peak_map, height) = peak_map_height (p.size) in
      let current = hash_with_index leaf (p.size) in
      let pushed = push_loop 64 (p.backend) peak_map 1 (p.size) current (current ∷ []) >>= λ r.
      ok (p.size, record { size = add64 (r.1) 1; backend = append leaf (r.0) (p.backend) }) in
      if height == 0 then pushed else err bad_mmr_size
