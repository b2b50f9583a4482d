-- ===== src/Pmmr/Validate.antt =====
-- core/src/core/pmmr/pmmr.rs: what PMMR::validate checks at one position, and at all of them.
use grin.Prelude.{
  ℕ, zero, suc, ◌+◌, ◌-◌, ◌*◌, ◌^◌, ◌≤◌, ◌<◌, ◌≡◌, refl, ap, sym, ◌∙◌, ◌↔◌, inl, inr, arith, some,
  ok, err, Result, ◌==◌, leb, get_elem?, length, Bool-cases, if◌then◌else◌, false, sub64, shl64,
  count_ones, ones,
}
use grin.Prelude.Try.{◌>>=◌}
use native.Mathlib.Nat.{pow-suc, pow-le-pow_right, mul-le-mul_left}
use native.Mathlib.Decide.{dec_lt}
use grin.Pmmr.Ones.{leaf_pos, leaf_pos_mono, le-leaf_pos, two_pow_pos, ones-le}
use grin.Pmmr.Siblings.{one_shifted}
use grin.Pmmr.Digits.{ends_in_ones}
use grin.Pmmr.Peaks.{peak_map_height_lem}
use grin.Pmmr.Index.{bintree_postorder_height, is_leaf, count_up}
use grin.Pmmr.Nodes.{node_pos, node_pos-right, node_pos-parent}
use grin.Pmmr.Reference.{tree}
use grin.Pmmr.VecBackend.{get_from_file}
use grin.Pmmr.Range.{
  PmmrError, parent_mismatch, Pmmr, hash_of, from_file, validate_all, validate_node,
}
use grin.Pmmr.Push.{node_pos-newest, inside_run}
use grin.Pmmr.Split.{node_between}
use grin.Pmmr.Root.{Built, get_elem?-some-lt}

-- Every position is that of a tree that ends with one leaf.
pub tree_at :
    (m h : ℕ)
    → m < 2 ^ 62
    → leaf_pos m + h < leaf_pos (m + 1)
    → (q : ℕ) × ((q + 1) * 2 ^ h ≡ m + 1) × (node_pos h q ≡ leaf_pos m + h)
unfolding leaf_pos count_ones
tree_at m h small hi =
    let (q, e) = ends_in_ones h 64 m (omega arith) (far m h hi) in
    (q, sym e, node_pos-newest h q m small (sym e))
  where
    far : (m h : ℕ) → leaf_pos m + h < leaf_pos (m + 1) → ones 64 (m + 1) + h ≤ ones 64 m + 1
    far m h hi = omega (arith, ones-le 64 m, ones-le 64 (m + 1))

pub height_small : (k q n : ℕ) → (q + 1) * 2 ^ k ≤ n → n < 2 ^ 62 → k < 62
height_small k q n le small = elim (dec_lt k 62) [
  | yes few ↦ few
  | no many ↦
      let top = pow-le-pow_right {n = 2} (omega arith) {i = 62} {j = k} (omega arith) in
      absurd (omega arith)
]

pub height_at :
    (m h : ℕ)
    → m < 2 ^ 62
    → leaf_pos m + h < leaf_pos (m + 1)
    → bintree_postorder_height (leaf_pos m + h) ≡ h
unfolding bintree_postorder_height
height_at m h small hi =
    let low = le-leaf_pos (m + 1) in
    ap (λ (t : ℕ × ℕ). t.1) (peak_map_height_lem m (leaf_pos m + h) (omega arith) (omega arith) hi)
    ∙ omega arith

-- The height of a node of the range.
height_node :
    (k q n : ℕ) → (q + 1) * 2 ^ k ≤ n → n < 2 ^ 62 → bintree_postorder_height (node_pos k q) ≡ k
height_node k q n le small =
    let m = (q + 1) * 2 ^ k - 1 in
    let some_leaf : 1 ≤ (q + 1) * 2 ^ k =
      omega (arith, two_pow_pos k, mul-le-mul_left (q + 1) (two_pow_pos k)) in
    let last : (q + 1) * 2 ^ k ≡ m + 1 = omega arith in
    ap bintree_postorder_height (node_pos-newest k q m (omega arith) last)
    ∙ height_at m k (omega arith) (inside_run k q m (omega arith) last)

-- The comparison of a parent with the hash of its children.
matches_iff :
    (a b : ℕ) (e : PmmrError)
    → (Path (Result PmmrError (Unit {0})) (if a == b then ok tt else err e) (ok tt)) ↔ (a ≡ b)
matches_iff a b e = elim (Bool-cases (a == b)) [
  | inl same ↦ let eq : a ≡ b = ground arith in rw same (λ h. eq, λ h. refl)
  | inr other ↦ rw other (λ h. cc, λ h. absurd (ground arith))
]

both :
    (m : Result PmmrError (Unit {0})) (k : Result PmmrError (Unit {0}))
    → (m >>= λ _. k) ≡ ok tt
    → (m ≡ ok tt) × (k ≡ ok tt)
both (ok u) k e = (refl, e)
both (err x) k e = cc

not_zero : (k : ℕ) → (suc k == 0) ≡ false
not_zero k = ground arith

module _ {T : Type 0} (hash_with_index : T → ℕ → ℕ) (hash_children : ℕ → ℕ → ℕ → ℕ)
    (leaf : ℕ → T) where
  abbrev tree_of : ℕ → ℕ → ℕ
  tree_of = tree hash_with_index hash_children leaf

  pub read_node :
      (n : ℕ) (p : Pmmr T) (k q : ℕ)
      → Built hash_with_index hash_children leaf n p
      → (q + 1) * 2 ^ k ≤ n
      → (from_file p (node_pos k q) ≡ some (tree_of k q)) × (node_pos k q < p.size)
  unfolding from_file get_from_file
  read_node n p k q built le =
      let got = built.nodes k q le in
      let inside = get_elem?-some-lt (p.backend.hashes) (node_pos k q) _ got in
      let size = built.sized in
      let count = built.count in
      let within : leb (p.size) (node_pos k q) ≡ false = ground arith in
      (rw within got, omega arith)

  hash_of-node :
      (p : Pmmr T) (s k : ℕ) → bintree_postorder_height s ≡ suc k → hash_of p s ≡ from_file p s
  unfolding hash_of is_leaf from_file get_from_file
  hash_of-node p s k height = rw (height, not_zero k) refl

  children_pos :
      (k q : ℕ)
      → suc k < 62
      → q < 2 ^ 62
      → node_pos (suc k) q < 2 ^ 63
      → (sub64 (node_pos (suc k) q) (shl64 1 (suc k)) ≡ node_pos k (2 * q))
        × (sub64 (node_pos (suc k) q) 1 ≡ node_pos k (2 * q + 1))
  children_pos k q few bound small =
      let up = node_pos-parent k q (omega arith) in
      let across = node_pos-right k q (omega arith) in
      let shift = one_shifted (suc k) (omega arith) in
      rw shift (omega (arith, pow-suc 2 k), omega arith)

  -- A range whose hashes are all there, and whose leaves are hashed.
  pub record IsFull (n : ℕ) (p : Pmmr T) : Type 0 where
    pub sized : p.size ≡ leaf_pos n
    pub count : length (p.backend.hashes) ≡ leaf_pos n
    pub leaves :
        (i : ℕ)
        → i < n
        → get_elem? (p.backend.hashes) (leaf_pos i) ≡ some (hash_with_index (leaf i) (leaf_pos i))

  -- A position of the range is read.
  read_at :
      (n : ℕ) (p : Pmmr T) (s h : ℕ)
      → IsFull n p
      → s < leaf_pos n
      → get_elem? (p.backend.hashes) s ≡ some h
      → from_file p s ≡ some h
  unfolding from_file get_from_file
  read_at n p s h full lt got =
      let size = full.sized in let within : leb (p.size) s ≡ false = ground arith in rw within got

  -- A parent is checked against the hash of its children.
  pub parent_iff :
      (n : ℕ) (p : Pmmr T) (k q h l r : ℕ)
      → n < 2 ^ 62
      → IsFull n p
      → (q + 1) * 2 ^ suc k ≤ n
      → get_elem? (p.backend.hashes) (node_pos (suc k) q) ≡ some h
      → get_elem? (p.backend.hashes) (node_pos k (2 * q)) ≡ some l
      → get_elem? (p.backend.hashes) (node_pos k (2 * q + 1)) ≡ some r
      → (validate_node hash_children p (node_pos (suc k) q) ≡ ok tt)
        ↔ (hash_children (node_pos (suc k) q) l r ≡ h)
  unfolding validate_node
  parent_iff n p k q h l r small full le top left right =
      let twice : (q + 1) * 2 ^ suc k ≡ (2 * q + 2) * 2 ^ k =
        omega (arith, ap (λ (t : ℕ). (q + 1) * t) (pow-suc 2 k)) in
      let few = height_small (suc k) q n le small in
      let low = le-leaf_pos n in
      let (_, high) = node_between (suc k) q (omega arith) in
      let end = leaf_pos_mono ((q + 1) * 2 ^ suc k) n le in
      let across =
        node_pos-right k q
          (omega (arith, two_pow_pos (suc k), mul-le-mul_left (q + 1) (two_pow_pos (suc k)))) in
      let up =
        node_pos-parent k q
          (omega (arith, two_pow_pos (suc k), mul-le-mul_left (q + 1) (two_pow_pos (suc k)))) in
      let pos = two_pow_pos k in
      let (left_pos, right_pos) =
        children_pos k q few
          (omega (arith, two_pow_pos (suc k), mul-le-mul_left (q + 1) (two_pow_pos (suc k))))
          (omega arith) in
      let height = height_node (suc k) q n le small in
      let at_top = read_at n p (node_pos (suc k) q) h full (omega arith) top in
      let at_left = read_at n p (node_pos k (2 * q)) l full (omega arith) left in
      let at_right = read_at n p (node_pos k (2 * q + 1)) r full (omega arith) right in
      rw
        (
          height,
          hash_of-node p (node_pos (suc k) q) k height,
          at_top,
          height,
          not_zero k,
          left_pos,
          right_pos,
          at_left,
          at_right,
        )
        (matches_iff (hash_children (node_pos (suc k) q) l r) h
          (parent_mismatch (node_pos (suc k) q + 1)))

  pub validate_all_iff :
      (p : Pmmr T) (start count : ℕ)
      → (validate_all hash_children p (count_up start count) ≡ ok tt)
        ↔ ((s : ℕ) → start ≤ s → s < start + count → validate_node hash_children p s ≡ ok tt)
  unfolding validate_all
  validate_all_iff p start zero = (λ e s le lt. absurd (omega arith), λ h. refl)
  validate_all_iff p start (suc count) = (
    λ e s le lt.
        let (now, later) = both (validate_node hash_children p start) _ e in
        elim (dec_lt start s) [
          | yes after ↦ (validate_all_iff p (suc start) count).0 later s (omega arith) (omega arith)
          | no here ↦
              let same : start ≡ s = omega arith in
              ap (validate_node hash_children p) (sym same) ∙ now
        ],
    λ h.
        rw (h start (omega arith) (omega arith))
          ((validate_all_iff p (suc start) count).1 (λ s le lt. h s (omega arith) (omega arith))),
  )

  pub leaf_valid :
      (p : Pmmr T) (s : ℕ)
      → bintree_postorder_height s ≡ 0
      → validate_node hash_children p s ≡ ok tt
  unfolding validate_node
  leaf_valid p s height = rw height refl
