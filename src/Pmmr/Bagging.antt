-- ===== src/Pmmr/Bagging.antt =====
-- core/src/core/pmmr/pmmr.rs, core/src/core/merkle_proof.rs: the part of a Merkle proof above the peak,
-- the bagged peaks to the right and then the peaks to the left.
use grin.Prelude.{
  ℕ, suc, ◌+◌, ◌*◌, ◌/◌, ◌%◌, ◌^◌, ◌≤◌, ◌<◌, ◌≡◌, refl, ap, ◌∙◌, inl, inr, arith, List, [], ◌∷◌,
  ◌++◌, length, reverse, Bool, true, false, Bool-cases, leb, ◌==◌, some, none, All, ok,
}
use mathlib.Core.List.{reverse-cons, append-nil}
use native.Mathlib.Nat.{pow-suc, pow-le-pow_right, mul-le-mul_left}
use grin.Pmmr.Index.{family, peaks}
use grin.Pmmr.Nodes.{node_pos}
use grin.Pmmr.Range.{keep, bag, bag_one}
use grin.Pmmr.MerkleProof.{binary_search, is_sibling_first, node_hash, parent_of, verify_path}
use grin.Pmmr.Climb.{node_siblings}

pub keep-append : (f : ℕ → Bool) (xs ys : List ℕ) → keep f (xs ++ ys) ≡ keep f xs ++ keep f ys
keep-append f [] ys = refl
keep-append f (x ∷ xs) ys = elim (Bool-cases (f x)) [
  | inl e ↦ rw e (ap (λ (t : List ℕ). x ∷ t) (keep-append f xs ys))
  | inr e ↦ rw e (keep-append f xs ys)
]

pub keep_all : (f : ℕ → Bool) (xs : List ℕ) → All (λ (x : ℕ). f x ≡ true) xs → keep f xs ≡ xs
keep_all f [] a = refl
keep_all f (x ∷ xs) (e, a) = rw e (ap (λ (t : List ℕ). x ∷ t) (keep_all f xs a))

pub keep_none : (f : ℕ → Bool) (xs : List ℕ) → All (λ (x : ℕ). f x ≡ false) xs → keep f xs ≡ []
keep_none f [] a = refl
keep_none f (x ∷ xs) (e, a) = rw e (keep_none f xs a)

pub binary_search_after :
    (xs ys : List ℕ) (s : ℕ)
    → All (λ (x : ℕ). x < s) xs
    → binary_search ys s ≡ none
    → binary_search (xs ++ ys) s ≡ none
unfolding binary_search
binary_search_after [] ys s a e = e
binary_search_after (x ∷ xs) ys s (lt, a) e =
    let other : (x == s) ≡ false = ground arith in rw (other, binary_search_after xs ys s a e) refl

pub binary_search_before :
    (xs : List ℕ) (s : ℕ) → All (λ (x : ℕ). s < x) xs → binary_search xs s ≡ none
unfolding binary_search
binary_search_before [] s a = refl
binary_search_before (x ∷ xs) s (lt, a) =
    let other : (x == s) ≡ false = ground arith in rw (other, binary_search_before xs s a) refl

pub binary_search_here :
    (xs ys : List ℕ) (s : ℕ)
    → All (λ (x : ℕ). x < s) xs
    → binary_search (xs ++ s ∷ ys) s ≡ some (length xs)
unfolding binary_search
binary_search_here [] ys s a = let same : (s == s) ≡ true = ground arith in rw same refl
binary_search_here (x ∷ xs) ys s (lt, a) =
    let other : (x == s) ≡ false = ground arith in rw (other, binary_search_here xs ys s a) refl

-- The parent of a node stands behind it.
pub family_up :
    (g q : ℕ)
    → g < 59
    → q * 2 ^ g < 2 ^ 59
    → ((family (node_pos g q)).0 ≡ node_pos (suc g) (q / 2))
      × (node_pos g q < node_pos (suc g) (q / 2))
      × (q / 2 * 2 ^ suc g ≤ q * 2 ^ g)
family_up g q few small =
    let j = q / 2 in
    let top = pow-le-pow_right {n = 2} (omega arith) {i = g} {j = 58} (omega arith) in
    let full = ap (λ (t : ℕ). j * t) (pow-suc 2 g) in
    let lower : 2 * j ≤ q = omega arith in
    let less = mul-le-mul_left (2 ^ g) lower in
    let sib = node_siblings g j (omega arith) (omega arith) in
    let first = sib.first in
    let last = sib.last in
    elim (Bool-cases (q % 2 == 0)) [
      | inl even ↦
          let same : q ≡ 2 * j = ground arith in
          let same' = ap (node_pos g) same in
          (
            ap (λ (t : ℕ). (family t).0) same' ∙ ap (λ (t : ℕ × ℕ). t.0) (sib.family_left),
            omega arith,
            omega arith,
          )
      | inr odd ↦
          let same : q ≡ 2 * j + 1 = ground arith in
          let same' = ap (node_pos g) same in
          (
            ap (λ (t : ℕ). (family t).0) same' ∙ ap (λ (t : ℕ × ℕ). t.0) (sib.family_right),
            omega arith,
            omega arith,
          )
    ]

module _ (hash_children : ℕ → ℕ → ℕ → ℕ) (size : ℕ) where
  -- The peaks of a list hashed in front of `c`, the last one first.
  unfoldable pub bag_onto : List ℕ → ℕ → ℕ
  bag_onto [] c = c
  bag_onto (x ∷ xs) c = hash_children size x (bag_onto xs c)

  pub bag-append :
      (xs ys : List ℕ) (t : ℕ)
      → bag hash_children size (xs ++ t ∷ ys)
        ≡ some (bag_onto xs (bag_one hash_children size t (bag hash_children size ys)))
  unfolding bag bag_onto
  bag-append [] ys t = refl
  bag-append (x ∷ xs) ys t = rw (bag-append xs ys t) refl

  -- What verify computes along the rest of a path.
  unfoldable pub hash_up : List ℕ → ℕ → ℕ
  hash_up [] c = c
  hash_up (x ∷ xs) c = hash_up xs (hash_children size x c)

  hash_up-append : (xs ys : List ℕ) (c : ℕ) → hash_up (xs ++ ys) c ≡ hash_up ys (hash_up xs c)
  unfolding hash_up
  hash_up-append [] ys c = refl
  hash_up-append (x ∷ xs) ys c = hash_up-append xs ys (hash_children size x c)

  pub hash_up-reverse : (xs : List ℕ) (c : ℕ) → hash_up (reverse xs) c ≡ bag_onto xs c
  unfolding hash_up bag_onto
  hash_up-reverse [] c = refl
  hash_up-reverse (x ∷ xs) c =
      ap (λ (t : List ℕ). hash_up t c) (reverse-cons x xs)
      ∙ hash_up-append (reverse xs) (x ∷ []) c
      ∙ ap (hash_children size x) (hash_up-reverse xs c)

  -- Outside of the range, each hash of the path is the left one.
  pub first_outside :
      (s : ℕ)
      → size ≤ (family s).0
      → All (λ (x : ℕ). x < s) (peaks size)
      → is_sibling_first size s ≡ true
  unfolding is_sibling_first
  first_outside s up behind =
      let above : leb size ((family s).0) ≡ true = ground arith in
      let missing =
        rw (append-nil (peaks size)) at
          (binary_search_after (peaks size) [] s behind (binary_search_before [] s tt)) in
      rw (missing, is_sibling_first, above) refl

  pub verify_up :
      (path : List ℕ) (root : ℕ) (e : ℕ → ℕ) (g q : ℕ)
      → ((s : ℕ) → size ≤ s → size ≤ (family s).0 → is_sibling_first size s ≡ true)
      → size ≤ node_pos g q
      → length path + g < 59
      → q * 2 ^ g < 2 ^ 59
      → root ≡ hash_up path (e size)
      → verify_path hash_children size root e (node_pos g q) path ≡ ok tt
  unfolding verify_path hash_up node_hash parent_of
  verify_up [] root e g q first le few small same =
      let above : leb size (node_pos g q) ≡ true = ground arith in
      let equal : (root == e size) ≡ true = ground arith in rw (above, equal) refl
  verify_up (x ∷ path) root e g q first le few small same =
      let above : leb size (node_pos g q) ≡ true = ground arith in
      let (up, behind, less) = family_up g q (omega arith) small in
      rw (up, first (node_pos g q) le (omega arith), above)
        (verify_up path root (λ index. hash_children index x (e size)) (suc g) (q / 2) first
          (omega arith) (omega arith) (omega arith) same)
