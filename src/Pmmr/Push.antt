-- ===== src/Pmmr/Push.antt =====
-- core/src/core/pmmr/pmmr.rs: what PMMR::push appends.
use grin.Prelude.{
  ℕ, zero, suc, ◌+◌, ◌*◌, ◌/◌, ◌%◌, ◌^◌, ◌≤◌, ◌<◌, ◌≡◌, refl, ap, sym, ◌∙◌, inl, inr, arith, List,
  [], ◌∷◌, ◌++◌, length, some, get_elem?, Result, ok, ◌==◌, Bool-cases, add64, sub64, mul64,
  length-append,
}
use native.Mathlib.Nat.{pow-suc, mul-le-mul_left, div-eq_of_lt-le}
use native.Mathlib.Decide.{dec_le}
use grin.Pmmr.Ones.{leaf_pos, leaf_pos-suc, le-leaf_pos, two_pow_pos}
use grin.Pmmr.Siblings.{digit_clear, digit_set}
use grin.Pmmr.Nodes.{
  node_pos, node_pos-zero, node_pos-right, node_pos-parent, leaf_pos_shift, leaf_pos_double,
  leaf_pos_double_suc,
}
use grin.Pmmr.Index.{peak_map_height}
use grin.Pmmr.Peaks.{peak_map_height_lem}
use grin.Pmmr.Reference.{tree, HasNodes}
use grin.Pmmr.VecBackend.{VecBackend, append, get_from_file}
use grin.Pmmr.Range.{Pmmr, at, PmmrError, push_loop, push}

-- The nodes over the newest leaf stand behind it.
pub node_pos-newest :
    (k q n : ℕ) → n < 2 ^ 62 → (q + 1) * 2 ^ k ≡ n + 1 → node_pos k q ≡ leaf_pos n + k
node_pos-newest zero q n b e =
    let same : q ≡ n = omega arith in rw (node_pos-zero q, same) (omega arith)
node_pos-newest (suc k) q n b e =
    let twice : (q + 1) * 2 ^ suc k ≡ (2 * q + 1 + 1) * 2 ^ k =
      omega (arith, ap (λ (t : ℕ). (q + 1) * t) (pow-suc 2 k)) in
    let small : (2 * q + 2) * 1 ≤ (2 * q + 2) * 2 ^ k =
      mul-le-mul_left (2 * q + 2) (two_pow_pos k) in
    omega
      (arith, node_pos-parent k q (omega arith), node_pos-newest k (2 * q + 1) n b (omega arith))

-- The index of the tree over the newest leaf has the higher digits.
digits_above : (j q n : ℕ) → (q + 1) * 2 ^ j ≡ n + 1 → n / 2 ^ j ≡ q
digits_above j q n e =
    div-eq_of_lt-le (2 ^ j) (omega (arith, two_pow_pos j)) (omega (arith, two_pow_pos j))

-- Behind the trees that end with the newest leaf stands the next one.
end_of_run :
    (j r n : ℕ) → n < 2 ^ 62 → (2 * r + 1) * 2 ^ j ≡ n + 1 → leaf_pos (n + 1) ≡ leaf_pos n + j + 1
unfolding node_pos
end_of_run j r n b e =
    let shift = leaf_pos_shift j (2 * r + 1) (omega arith) in
    let small : (2 * r + 1) * 1 ≤ (2 * r + 1) * 2 ^ j =
      mul-le-mul_left (2 * r + 1) (two_pow_pos j) in
    let newest = node_pos-newest j (2 * r) n b e in
    let next = ap leaf_pos e in
    omega (arith, leaf_pos_double r (omega arith), leaf_pos_double_suc r (omega arith))

left_sibling :
    (j r n : ℕ)
    → n < 2 ^ 62
    → j ≤ 64
    → (2 * r + 1 + 1) * 2 ^ j ≡ n + 1
    → (sub64 (add64 (leaf_pos n + j) 1) (mul64 2 (2 ^ j)) ≡ node_pos j (2 * r))
      × ((2 * r + 1) * 2 ^ j ≤ n)
      × (2 * 2 ^ j ≤ 2 ^ 62)
left_sibling j r n b few e =
    let small : (2 * r + 2) * 1 ≤ (2 * r + 2) * 2 ^ j =
      mul-le-mul_left (2 * r + 2) (two_pow_pos j) in
    let newest = node_pos-newest j (2 * r + 1) n b e in
    let right = node_pos-right j r (omega arith) in
    let low = le-leaf_pos n in (omega arith, omega (arith, two_pow_pos j), omega arith)

-- A tree that ends with the newest leaf stands before the next leaf.
pub inside_run :
    (k q n : ℕ) → n < 2 ^ 62 → (q + 1) * 2 ^ k ≡ n + 1 → leaf_pos n + k < leaf_pos (n + 1)
unfolding node_pos
inside_run k q n b e =
    let shift = leaf_pos_shift k (q + 1) (omega arith) in
    let newest = node_pos-newest k q n b e in
    let next = ap leaf_pos e in omega (arith, leaf_pos-suc q)

module _ {ℓ} {A : Type ℓ} where
  get_elem?-append_left :
      (xs ys : List A) (i : ℕ) (x : A) → get_elem? xs i ≡ some x → get_elem? (xs ++ ys) i ≡ some x
  get_elem?-append_left [] ys i x e = absurd cc
  get_elem?-append_left (y ∷ xs) ys zero x e = e
  get_elem?-append_left (y ∷ xs) ys (suc i) x e = get_elem?-append_left xs ys i x e

  get_elem?-append_right :
      (xs ys : List A) (i : ℕ) → get_elem? (xs ++ ys) (length xs + i) ≡ get_elem? ys i
  get_elem?-append_right [] ys i = let e : 0 + i ≡ i = omega arith in rw e refl
  get_elem?-append_right (x ∷ xs) ys i =
      let e : suc (length xs) + i ≡ suc (length xs + i) = omega arith in
      rw e (get_elem?-append_right xs ys i)

module _ {T : Type 0} (hash_with_index : T → ℕ → ℕ) (hash_children : ℕ → ℕ → ℕ → ℕ)
    (leaf : ℕ → T) where
  abbrev tree_of : ℕ → ℕ → ℕ
  tree_of = tree hash_with_index hash_children leaf

  -- The trees that end with the newest leaf, up to height `j`.
  record IsRun (n j : ℕ) (hs : List ℕ) : Type 0 where
    count : length hs ≡ j + 1
    nodes : (k q : ℕ) → k ≤ j → (q + 1) * 2 ^ k ≡ n + 1 → get_elem? hs k ≡ some (tree_of k q)

  IsRun-next :
      (n j r : ℕ) (hs : List ℕ)
      → (r + 1) * 2 ^ suc j ≡ n + 1
      → IsRun n j hs
      → IsRun n (suc j) (hs ++ tree_of (suc j) r ∷ [])
  IsRun-next n j r hs e run = record {
    count = let c = run.count in omega (arith, length-append hs (tree_of (suc j) r ∷ []));
    nodes = λ k q le f. elim (dec_le k j) [
      | yes low ↦
          get_elem?-append_left hs (tree_of (suc j) r ∷ []) k (tree_of k q) (run.nodes k q low f)
      | no above ↦
          let last : k ≡ suc j = omega arith in
          let same : q ≡ r =
            sym (digits_above (suc j) q n (rw last at f)) ∙ digits_above (suc j) r n e in
          let place : length hs + 0 ≡ k = let c = run.count in omega arith in
          let tree_same : tree_of (suc j) r ≡ tree_of k q = rw (same, last) refl in
          rw place at (get_elem?-append_right hs (tree_of (suc j) r ∷ []) 0) ∙ ap some tree_same
    ];
  }

  abbrev looped : VecBackend T → ℕ → ℕ → ℕ → ℕ → List ℕ → Result PmmrError (List ℕ × ℕ)
  looped b fuel n j q hs =
      push_loop hash_children fuel b n (2 ^ j) (leaf_pos n + j) (tree_of j q) hs

  -- A round, where there is a peak to the left.
  push_loop-round :
      (fuel j r n : ℕ) (b : VecBackend T) (hs : List ℕ)
      → n < 2 ^ 62
      → j ≤ 64
      → (2 * r + 1 + 1) * 2 ^ j ≡ n + 1
      → (r + 1) * 2 ^ suc j ≡ n + 1
      → HasNodes hash_with_index hash_children leaf n (b.hashes)
      → looped b (suc fuel) n j (2 * r + 1) hs
        ≡ looped b fuel n (suc j) r (hs ++ tree_of (suc j) r ∷ [])
  unfolding push_loop tree get_from_file
  push_loop-round fuel j r n b hs small few e twice has =
      let digit : n / 2 ^ j % 2 ≡ 1 = rw (digits_above j (2 * r + 1) n e) (omega arith) in
      let (place, inside, bound) = left_sibling j r n small few e in
      let low = le-leaf_pos n in
      let step : add64 (leaf_pos n + j) 1 ≡ leaf_pos n + suc j = omega arith in
      let double : mul64 (2 ^ j) 2 ≡ 2 ^ suc j = omega (arith, pow-suc 2 j) in
      rw
        (
          digit_set n j digit,
          place,
          has j (2 * r) inside,
          step,
          double,
          node_pos-newest (suc j) r n small twice,
        )
        refl

  push_loop-IsRun :
      (fuel j q n : ℕ) (b : VecBackend T) (hs : List ℕ)
      → n < 2 ^ 62
      → j + fuel ≡ 64
      → (q + 1) * 2 ^ j ≡ n + 1
      → HasNodes hash_with_index hash_children leaf n (b.hashes)
      → IsRun n j hs
      → (j' : ℕ) × (hs' : List ℕ) × (looped b fuel n j q hs ≡ ok (hs', leaf_pos n + j'))
        × (leaf_pos (n + 1) ≡ leaf_pos n + j' + 1)
        × IsRun n j' hs'
  unfolding push_loop
  push_loop-IsRun zero j q n b hs small rounds e has run =
      let all : j ≡ 64 = omega arith in let f = rw all at e in absurd (omega arith)
  push_loop-IsRun (suc fuel) j q n b hs small rounds e has run = elim (Bool-cases (q % 2 == 0)) [
    | inl even ↦
        let half : 2 * (q / 2) ≡ q = ground arith in
        let digit : n / 2 ^ j % 2 ≡ 0 = rw (digits_above j q n e) (ground arith) in
        rw (digit_clear n j digit) (j, hs, refl, end_of_run j (q / 2) n small (rw half e), run)
    | inr odd ↦
        let half : 2 * (q / 2) + 1 ≡ q = ground arith in
        let e' : (2 * (q / 2) + 1 + 1) * 2 ^ j ≡ n + 1 = rw half e in
        let twice : (q / 2 + 1) * 2 ^ suc j ≡ n + 1 =
          omega (arith, ap (λ (t : ℕ). (q / 2 + 1) * t) (pow-suc 2 j)) in
        let round = push_loop-round fuel j (q / 2) n b hs small (omega arith) e' twice has in
        let (j', hs', run_eq, next, run') =
          push_loop-IsRun fuel (suc j) (q / 2) n b (hs ++ tree_of (suc j) (q / 2) ∷ []) small
            (omega arith) twice has (IsRun-next n j (q / 2) hs twice run) in
        (j', hs', sym (ap (λ t. looped b (suc fuel) n j t hs) half) ∙ round ∙ run_eq, next, run')
  ]

  -- The range after the first `n` elements.
  pub record IsBuilt (n : ℕ) (p : Pmmr T) : Type 0 where
    pub sized : p.size ≡ leaf_pos n
    pub count : length (p.backend.hashes) ≡ leaf_pos n
    pub nodes : HasNodes hash_with_index hash_children leaf n (p.backend.hashes)

  HasNodes-append :
      (n j : ℕ) (hashes hs : List ℕ)
      → n < 2 ^ 62
      → length hashes ≡ leaf_pos n
      → leaf_pos (n + 1) ≡ leaf_pos n + j + 1
      → HasNodes hash_with_index hash_children leaf n hashes
      → IsRun n j hs
      → HasNodes hash_with_index hash_children leaf (n + 1) (hashes ++ hs)
  HasNodes-append n j hashes hs small count next has run k q le =
      elim (dec_le ((q + 1) * 2 ^ k) n) [
        | yes old ↦ get_elem?-append_left hashes hs (node_pos k q) (tree_of k q) (has k q old)
        | no new ↦
            let newest : (q + 1) * 2 ^ k ≡ n + 1 = omega arith in
            let place = node_pos-newest k q n small newest in
            let at_end : length hashes + k ≡ node_pos k q = omega arith in
            rw at_end at (get_elem?-append_right hashes hs k)
            ∙ run.nodes k q (let lt = inside_run k q n small newest in omega arith) newest
      ]

  IsRun-first : (n : ℕ) → IsRun n 0 (tree_of 0 n ∷ [])
  IsRun-first n = record {
    count = refl;
    nodes = λ k q le e.
        let bottom : k ≡ 0 = omega arith in
        let f = rw bottom at e in let same : q ≡ n = omega arith in rw (bottom, same) refl;
  }

  first_hash : (n : ℕ) → hash_with_index (leaf n) (leaf_pos n) ≡ tree_of 0 n
  unfolding tree
  first_hash n = rw (node_pos-zero n) refl

  push-at :
      (n : ℕ) (b : VecBackend T)
      → n < 2 ^ 62
      → IsBuilt n (at b (leaf_pos n))
      → (p' : Pmmr T) × (push hash_children hash_with_index (leaf n) (at b (leaf_pos n))
          ≡ ok (leaf_pos n, p'))
        × IsBuilt (n + 1) p'
        × ((hs : List ℕ) × (p'.backend ≡ append (leaf n) hs b))
  unfolding push append
  push-at n b small built =
      let low = le-leaf_pos n in
      let map : peak_map_height (leaf_pos n) ≡ (n, 0) =
        peak_map_height_lem n (leaf_pos n) (omega arith) (omega arith) (leaf_pos-suc n)
        ∙ ap (λ (t : ℕ). (n, t)) (omega arith) in
      let start : leaf_pos n + 0 ≡ leaf_pos n = omega arith in
      let (j, hs, looped_eq, next, run) =
        push_loop-IsRun 64 0 n n b (tree_of 0 n ∷ []) small (omega arith) (omega arith)
          (built.nodes) (IsRun-first n) in
      let ran = rw start at looped_eq in
      let count = run.count in
      let fits = le-leaf_pos (n + 1) in
      let size : add64 (leaf_pos n + j) 1 ≡ leaf_pos (n + 1) = omega arith in
      rw (map, first_hash n, ran)
        (
          record { size = add64 (leaf_pos n + j) 1; backend = append (leaf n) hs b },
          refl,
          record {
            sized = size;
            count = let c = built.count in omega (arith, length-append (b.hashes) hs);
            nodes = HasNodes-append n j (b.hashes) hs small (built.count) next (built.nodes) run;
          },
          (hs, refl),
        )

  pub push-IsBuilt :
      (n : ℕ) (p : Pmmr T)
      → n < 2 ^ 62
      → IsBuilt n p
      → (p' : Pmmr T) × (push hash_children hash_with_index (leaf n) p ≡ ok (leaf_pos n, p'))
        × IsBuilt (n + 1) p'
        × ((hs : List ℕ) × (p'.backend ≡ append (leaf n) hs (p.backend)))
  push-IsBuilt n p small built =
      let same : p ≡ at (p.backend) (leaf_pos n) = ap (at (p.backend)) (built.sized) in
      let (p', pushed, built', added) =
        push-at n (p.backend) small
          (record { sized = refl; count = built.count; nodes = built.nodes }) in
      (p', ap (push hash_children hash_with_index (leaf n)) same ∙ pushed, built', added)
