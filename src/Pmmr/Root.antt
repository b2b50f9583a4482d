-- ===== src/Pmmr/Root.antt =====
-- core/src/core/pmmr/pmmr.rs: PMMR::root after a run of PMMR::push.
use grin.Prelude.{
  ℕ, zero, suc, ◌+◌, ◌-◌, ◌*◌, ◌^◌, ◌≤◌, ◌<◌, ◌≡◌, refl, ap, sym, ◌∙◌, inl, inr, arith, List, [],
  ◌∷◌, length, some, get_elem?, Option, Result, ok, ◌==◌, leb, Bool-cases, false,
}
use grin.Prelude.Try.{◌>>=◌}
use native.Mathlib.Nat.{pow-suc}
use native.Mathlib.Numerals.{add-one}
use grin.Pmmr.Ones.{leaf_pos, le-leaf_pos, leaf_pos-zero, two_pow_pos}
use grin.Pmmr.Nodes.{node_pos}
use grin.Pmmr.Index.{peaks}
use grin.Pmmr.Tops.{tops, peaks-leaf_pos}
use grin.Pmmr.Reference.{tree, mountains, HasNodes}
use grin.Pmmr.VecBackend.{new_vec, get_from_file}
use grin.Pmmr.Range.{Pmmr, at, PmmrError, push, root, bag, read_all, peak_hashes, peak_from_file}
use grin.Pmmr.Push.{IsBuilt, push-IsBuilt}

pub get_elem?-some-lt {ℓ} :
    {A : Type ℓ} (xs : List A) (i : ℕ) (x : A) → get_elem? xs i ≡ some x → i < length xs
get_elem?-some-lt [] i x e = absurd cc
get_elem?-some-lt (y ∷ xs) zero x e = omega arith
get_elem?-some-lt (y ∷ xs) (suc i) x e = omega (arith, get_elem?-some-lt xs i x e)

module _ {T : Type 0} (hash_with_index : T → ℕ → ℕ) (hash_children : ℕ → ℕ → ℕ → ℕ)
    (leaf : ℕ → T) where
  -- The elements are pushed one after another.
  unfoldable pub push_first : ℕ → Pmmr T → Result PmmrError (Pmmr T)
  push_first zero p = ok p
  push_first (suc n) p =
      push_first n p >>= λ q. push hash_children hash_with_index (leaf n) q >>= λ r. ok (r.1)

  abbrev pub Built : ℕ → Pmmr T → Type 0
  Built = IsBuilt hash_with_index hash_children leaf

  pub empty-IsBuilt : Built 0 (at new_vec 0)
  empty-IsBuilt = record {
    sized = sym leaf_pos-zero;
    count = sym leaf_pos-zero;
    nodes = λ k q le. absurd (omega (arith, two_pow_pos k));
  }

  pub push_first-IsBuilt :
      (n : ℕ) → n ≤ 2 ^ 62 → (p : Pmmr T) × (push_first n (at new_vec 0) ≡ ok p) × Built n p
  unfolding push_first
  push_first-IsBuilt zero h = (at new_vec 0, refl, empty-IsBuilt)
  push_first-IsBuilt (suc n) h =
      let (p, e, built) = push_first-IsBuilt n (omega arith) in
      let (p', pushed, built', added) =
        push-IsBuilt hash_with_index hash_children leaf n p (omega arith) built in
      (p', rw (e, pushed) refl, rw (add-one n) at built')

  -- A tree that is there is read, and peaks are trees.
  pub read_tree :
      (n : ℕ) (p : Pmmr T) (k q : ℕ)
      → Built n p
      → (q + 1) * 2 ^ k ≤ n
      → peak_from_file p (node_pos k q) ≡ some (tree hash_with_index hash_children leaf k q)
  unfolding peak_from_file get_from_file
  read_tree n p k q built le =
      let got = built.nodes k q le in
      let inside = get_elem?-some-lt (p.backend.hashes) (node_pos k q) _ got in
      let size = built.sized in
      let count = built.count in
      let within : leb (p.size) (node_pos k q) ≡ false = ground arith in rw within got

  pub read_tops :
      (n : ℕ) (p : Pmmr T) (k m r : ℕ)
      → Built n p
      → m * 2 ^ k + r ≤ n
      → read_all (peak_from_file p) (tops k m r)
        ≡ mountains hash_with_index hash_children leaf k m r
  unfolding read_all tops mountains
  read_tops n p zero m r built le = refl
  read_tops n p (suc k) m r built le =
      let twice : m * 2 ^ suc k ≡ 2 * m * 2 ^ k =
        omega (arith, ap (λ (t : ℕ). m * t) (pow-suc 2 k)) in
      elim (Bool-cases (leb (2 ^ k) r)) [
        | inl fits ↦
            let inside : 2 ^ k ≤ r = ground arith in
            rw (fits, read_tree n p k (2 * m) built (omega arith))
              (ap (λ t. tree hash_with_index hash_children leaf k (2 * m) ∷ t)
                (read_tops n p k (2 * m + 1) (r - 2 ^ k) built (omega arith)))
        | inr low ↦ rw low (read_tops n p k (2 * m) r built (omega arith))
      ]

  -- The root of the first `n` elements: their trees, bagged with the size from the right.
  abbrev pub range_root : ℕ → Option ℕ
  range_root n =
      bag hash_children (leaf_pos n) (mountains hash_with_index hash_children leaf 64 0 n)

  bagged :
      (n : ℕ) (p : Pmmr T)
      → n < 2 ^ 62
      → Built n p
      → bag hash_children (p.size) (peak_hashes p) ≡ range_root n
  unfolding peak_hashes
  bagged n p h built =
      let tops_eq = ap peaks (built.sized) ∙ peaks-leaf_pos n h in
      rw (tops_eq, read_tops n p 64 0 n built (omega arith), built.sized) refl

  mountains-some :
      (k m n : ℕ)
      → 0 < n
      → n < 2 ^ k
      → (t : ℕ) × (ts : List ℕ) × (mountains hash_with_index hash_children leaf k m n ≡ t ∷ ts)
  unfolding mountains
  mountains-some zero m n pos lt = absurd (omega arith)
  mountains-some (suc k) m n pos lt = elim (Bool-cases (leb (2 ^ k) n)) [
    | inl fits ↦ rw fits (_, _, refl)
    | inr low ↦ rw low (mountains-some k (2 * m) n pos (ground arith))
  ]

  pub root-some :
      (n : ℕ) (p : Pmmr T)
      → 0 < n
      → n < 2 ^ 62
      → Built n p
      → (r : ℕ) × (range_root n ≡ some r) × (root hash_children p ≡ ok r)
  unfolding root bag
  root-some n p pos h built =
      let (t, ts, e) = mountains-some 64 0 n pos (omega arith) in
      let low = le-leaf_pos n in
      let size = built.sized in
      let full : (p.size == 0) ≡ false = ground arith in
      let bag_eq : range_root n ≡ some _ = ap (bag hash_children (leaf_pos n)) e in
      (_, bag_eq, rw (full, bagged n p h built, bag_eq) refl)

  -- Into an empty range each of up to 2 ^ 62 - 1 elements, at least one, is pushed without an error. The
  -- size is then the position of the next leaf, every perfect tree over the elements has the hash of its
  -- root at its place, and root gives the bagged roots of the largest trees that they make, from left to
  -- right.
  pub root-push_first :
      (n : ℕ)
      → 0 < n
      → n < 2 ^ 62
      → (p : Pmmr T) × (r : ℕ) × (push_first n (at new_vec 0) ≡ ok p)
        × (p.size ≡ leaf_pos n)
        × HasNodes hash_with_index hash_children leaf n (p.backend.hashes)
        × (range_root n ≡ some r)
        × (root hash_children p ≡ ok r)
  root-push_first n pos h =
      let (p, e, built) = push_first-IsBuilt n (omega arith) in
      let (r, range, eq) = root-some n p pos h built in
      (p, r, e, built.sized, built.nodes, range, eq)
