-- ===== src/Pmmr/VecBackend.antt =====
-- core/src/core/pmmr/vec_backend.rs: the backend of a range in memory. The methods that the source
-- leaves unimplemented are left out.
use grin.Prelude.{
  ℕ, ◌+◌, ◌-◌, Option, none, some, List, [], ◌∷◌, ◌++◌, map, Bool, not, length, get_elem?, take,
  any, ltb, ◌==◌, ◌&&◌, if◌then◌else◌,
}
use grin.Pmmr.Index.{n_leaves, is_leaf, insertion_to_pmmr_index, count_up}

pub record VecBackend (T : Type 0) : Type 0 where
  pub elements : Option (List T)
  pub hashes : List ℕ
  pub removed : List ℕ

abbrev pub skip_below : ℕ → List ℕ → List ℕ
skip_below from_pos [] = []
skip_below from_pos (x ∷ xs) =
    let rest = skip_below from_pos xs in if ltb x from_pos then rest else x ∷ xs

module _ {T : Type 0} where
  abbrev pub new_vec : VecBackend T
  new_vec = record { elements = some []; hashes = []; removed = [] }

  abbrev pub new_hash_only : VecBackend T
  new_hash_only = record { elements = none; hashes = []; removed = [] }

  abbrev pub map_elements : (List T → List T) → Option (List T) → Option (List T)
  map_elements f none = none
  map_elements f (some elements) = some (f elements)

  unfoldable pub append : T → List ℕ → VecBackend T → VecBackend T
  append elmt hashes b = record {
    elements = map_elements (λ ts. ts ++ elmt ∷ []) (b.elements);
    hashes = b.hashes ++ hashes;
    removed = b.removed;
  }

  abbrev pub is_removed : ℕ → VecBackend T → Bool
  is_removed pos0 b = any (λ p. p == pos0) (b.removed)

  unfoldable pub get_from_file : VecBackend T → ℕ → Option ℕ
  get_from_file b pos0 = get_elem? (b.hashes) pos0

  abbrev pub get_peak_from_file : VecBackend T → ℕ → Option ℕ
  get_peak_from_file b pos0 = get_from_file b pos0

  unfoldable pub get_hash : VecBackend T → ℕ → Option ℕ
  get_hash b pos0 = if is_removed pos0 b then none else get_from_file b pos0

  abbrev pub element_at : Option (List T) → ℕ → Option T
  element_at none i = none
  element_at (some elements) i = get_elem? elements i

  -- The leaf that stands at a position or before it.
  unfoldable pub get_data_from_file : VecBackend T → ℕ → Option T
  get_data_from_file b pos0 = element_at (b.elements) (n_leaves (1 + pos0) - 1)

  unfoldable pub get_data : VecBackend T → ℕ → Option T
  get_data b pos0 = if is_removed pos0 b then none else get_data_from_file b pos0

  unfoldable pub live_leaves : VecBackend T → List ℕ → List ℕ
  live_leaves b [] = []
  live_leaves b (pos0 ∷ rest) =
      let kept = live_leaves b rest in
      if is_leaf pos0 && not (is_removed pos0 b) then pos0 ∷ kept else kept

  unfoldable pub leaf_pos_iter : VecBackend T → List ℕ
  leaf_pos_iter b = live_leaves b (count_up 0 (length (b.hashes)))

  unfoldable pub leaf_idx_iter : VecBackend T → ℕ → List ℕ
  leaf_idx_iter b from_idx =
      map (λ x. n_leaves (x + 1) - 1)
        (skip_below (insertion_to_pmmr_index from_idx) (leaf_pos_iter b))

  unfoldable pub remove : ℕ → VecBackend T → VecBackend T
  remove pos0 b = record b { removed = if is_removed pos0 b then b.removed else pos0 ∷ b.removed }

  -- Removed positions stay removed, and the bitmap is not read.
  unfoldable pub rewind_backend : ℕ → VecBackend T → VecBackend T
  rewind_backend position b = record {
    elements = map_elements (take (n_leaves position)) (b.elements);
    hashes = take position (b.hashes);
    removed = b.removed;
  }

  abbrev pub backend_size : VecBackend T → ℕ
  backend_size b = length (b.hashes)
