-- ===== src/Pmmr/Reference.antt =====
-- The range by its meaning: perfect trees over the elements, and the peaks of the first elements.
use grin.Prelude.{
  ℕ, zero, suc, ◌+◌, ◌-◌, ◌*◌, ◌^◌, ◌≤◌, ◌≡◌, List, [], ◌∷◌, some, get_elem?, leb, if◌then◌else◌,
}
use grin.Pmmr.Nodes.{node_pos}

module _ {T : Type 0} (hash_with_index : T → ℕ → ℕ) (hash_children : ℕ → ℕ → ℕ → ℕ)
    (leaf : ℕ → T) where
  -- The root over the 2 ^ k elements from `q * 2 ^ k` on.
  unfoldable pub tree : ℕ → ℕ → ℕ
  tree zero q = hash_with_index (leaf q) (node_pos 0 q)
  tree (suc k) q = hash_children (node_pos (suc k) q) (tree k (2 * q)) (tree k (2 * q + 1))

  -- The roots of the trees that `n` elements, of fewer than 2 ^ k, make behind the `m * 2 ^ k` first
  -- ones: as many as fit, the largest first.
  unfoldable pub mountains : ℕ → ℕ → ℕ → List ℕ
  mountains zero m n = []
  mountains (suc k) m n =
      let with_tree = tree k (2 * m) ∷ mountains k (2 * m + 1) (n - 2 ^ k) in
      let without = mountains k (2 * m) n in if leb (2 ^ k) n then with_tree else without

  -- All trees over the first `n` elements are in these hashes, each at its position.
  abbrev pub HasNodes : ℕ → List ℕ → Type 0
  HasNodes n hashes =
      (k q : ℕ) → (q + 1) * 2 ^ k ≤ n → get_elem? hashes (node_pos k q) ≡ some (tree k q)
