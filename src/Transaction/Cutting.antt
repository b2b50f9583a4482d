-- ===== src/Transaction/Cutting.antt =====
-- core/src/core/transaction.rs: the loop of cut_through, by counts of commitments.
use grin.Prelude.{
  ℕ, zero, suc, ◌+◌, ◌-◌, ◌<◌, ◌≤◌, ◌≡◌, inl, inr, refl, sym, ◌∙◌, arith, min, List, [], ◌∷◌, ◌++◌,
  length, length-append, get_elem?, ltb, ltb→lt, ◌==◌, Option, some, none, Bool-cases,
  if◌then◌else◌,
}
use mathlib.Core.List.{append_assoc, append-nil}
use grin.Prelude.Counting.{count, count-append, count-zero, All-lt_trans, IsSortedBy}
use grin.Transaction.CutThrough.{CutState, cut_loop, cut_round}
use grin.Transaction.Swaps.{get-middle, get-past, swap-split, rotate, length-rotate, count-rotate}

same_indicator :
    (v a b : ℕ) → a ≡ b → ◌≡◌ {A = ℕ} (if a == v then 1 else 0) (if b == v then 1 else 0)
same_indicator v a b e = rw e refl

module _ {C : Type 0} where
  get-rest : (k c r : List C) (x : C) → get_elem? (k ++ (c ++ x ∷ r)) (length k + length c) ≡ some x
  get-rest k c r x =
      let e : length k + length c ≡ length (k ++ c) = omega (arith, length-append k c) in
      rw (e, ← append_assoc k c (x ∷ r)) (get-middle (k ++ c) x r)

  get-end : (k c : List C) → get_elem? (k ++ (c ++ [])) (length k + length c) ≡ none
  get-end k c =
      let e : length k + length c ≡ length (k ++ c) = omega (arith, length-append k c) in
      rw (append-nil c, e) (get-past (k ++ c))

module _ {A B : Type 0} (commit : A → ℕ) (commit' : B → ℕ) where
  -- Of two sorted lists, the lower first element stands in one only, and an equal one in both.
  first_lower :
      (v : ℕ) (x : A) (r : List A) (y : B) (r' : List B)
      → commit x < commit' y
      → IsSortedBy commit' (y ∷ r')
      → (count commit v (x ∷ r) - count commit' v (y ∷ r')
          ≡ (if commit x == v then 1 else 0) + (count commit v r - count commit' v (y ∷ r')))
        × (count commit' v (y ∷ r') - count commit v (x ∷ r)
            ≡ count commit' v (y ∷ r') - count commit v r)
        × (min (count commit v (x ∷ r)) (count commit' v (y ∷ r'))
            ≡ min (count commit v r) (count commit' v (y ∷ r')))
  first_lower v x r y r' lt s = elim (Bool-cases (commit x == v)) [
    | inl is ↦
        let low : v < commit' y = ground arith in
        let none_there =
          count-zero commit' v (y ∷ r') (low, All-lt_trans commit' v (commit' y) r' low (s.0)) in
        rw is (omega arith)
    | inr other ↦ rw other (omega arith)
  ]

module _ {A B : Type 0} (commit : A → ℕ) (commit' : B → ℕ) where
  -- Both slices are their kept, their cut and their remaining elements.
  abbrev pub parts : List A → List A → List A → List B → List B → List B → CutState A B
  parts k c r k' c' r' = record {
    inputs = k ++ (c ++ r);
    outputs = k' ++ (c' ++ r');
    inputs_idx = length k + length c;
    outputs_idx = length k' + length c';
    ncut = length c;
  }

  pub record IsCut (k c r : List A) (k' c' r' : List B) (res : Option (CutState A B)) : Type 0 where
    pub kept : List A
    pub cut : List A
    pub left : List A
    pub kept' : List B
    pub cut' : List B
    pub left' : List B
    pub done : res ≡ some (parts kept cut left kept' cut' left')
    pub as_many : length cut ≡ length cut'
    pub few : length left ≤ length r
    pub few' : length left' ≤ length r'
    pub in_kept :
        (v : ℕ)
        → count commit v kept + count commit v left
          ≡ count commit v k + (count commit v r - count commit' v r')
    pub out_kept :
        (v : ℕ)
        → count commit' v kept' + count commit' v left'
          ≡ count commit' v k' + (count commit' v r' - count commit v r)
    pub in_cut :
        (v : ℕ)
        → count commit v cut ≡ count commit v c + min (count commit v r) (count commit' v r')
    pub out_cut :
        (v : ℕ)
        → count commit' v cut' ≡ count commit' v c' + min (count commit v r) (count commit' v r')

  -- What each round adds: a kept input, a kept output, or a pair that is cut.
  IsCut-less :
      (k c : List A) (x : A) (r : List A) (k' c' : List B) (y : B) (r' : List B)
      (res : Option (CutState A B))
      → commit x < commit' y
      → IsSortedBy commit' (y ∷ r')
      → IsCut (k ++ x ∷ []) (rotate c) r k' c' (y ∷ r') res
      → IsCut k c (x ∷ r) k' c' (y ∷ r') res
  IsCut-less k c x r k' c' y r' res lt s' c0 = record {
    kept = c0.kept;
    cut = c0.cut;
    left = c0.left;
    kept' = c0.kept';
    cut' = c0.cut';
    left' = c0.left';
    done = c0.done;
    as_many = c0.as_many;
    few = let f = c0.few in omega arith;
    few' = c0.few';
    in_kept = λ v.
        let e = c0.in_kept v in
        let (a, b, m) = first_lower commit commit' v x r y r' lt s' in
        omega (arith, count-append commit v k (x ∷ []));
    out_kept = λ v.
        let e = c0.out_kept v in
        let (a, b, m) = first_lower commit commit' v x r y r' lt s' in omega arith;
    in_cut = λ v.
        let e = c0.in_cut v in
        let (a, b, m) = first_lower commit commit' v x r y r' lt s' in
        omega (arith, count-rotate commit v c);
    out_cut = λ v.
        let e = c0.out_cut v in
        let (a, b, m) = first_lower commit commit' v x r y r' lt s' in omega arith;
  }

  IsCut-greater :
      (k c : List A) (x : A) (r : List A) (k' c' : List B) (y : B) (r' : List B)
      (res : Option (CutState A B))
      → commit' y < commit x
      → IsSortedBy commit (x ∷ r)
      → IsCut k c (x ∷ r) (k' ++ y ∷ []) (rotate c') r' res
      → IsCut k c (x ∷ r) k' c' (y ∷ r') res
  IsCut-greater k c x r k' c' y r' res lt s c0 = record {
    kept = c0.kept;
    cut = c0.cut;
    left = c0.left;
    kept' = c0.kept';
    cut' = c0.cut';
    left' = c0.left';
    done = c0.done;
    as_many = c0.as_many;
    few = c0.few;
    few' = let f = c0.few' in omega arith;
    in_kept = λ v.
        let e = c0.in_kept v in
        let (a, b, m) = first_lower commit' commit v y r' x r lt s in omega arith;
    out_kept = λ v.
        let e = c0.out_kept v in
        let (a, b, m) = first_lower commit' commit v y r' x r lt s in
        omega (arith, count-append commit' v k' (y ∷ []));
    in_cut = λ v.
        let e = c0.in_cut v in
        let (a, b, m) = first_lower commit' commit v y r' x r lt s in omega arith;
    out_cut = λ v.
        let e = c0.out_cut v in
        let (a, b, m) = first_lower commit' commit v y r' x r lt s in
        omega (arith, count-rotate commit' v c');
  }

  IsCut-equal :
      (k c : List A) (x : A) (r : List A) (k' c' : List B) (y : B) (r' : List B)
      (res : Option (CutState A B))
      → commit x ≡ commit' y
      → IsCut k (c ++ x ∷ []) r k' (c' ++ y ∷ []) r' res
      → IsCut k c (x ∷ r) k' c' (y ∷ r') res
  IsCut-equal k c x r k' c' y r' res e c0 = record {
    kept = c0.kept;
    cut = c0.cut;
    left = c0.left;
    kept' = c0.kept';
    cut' = c0.cut';
    left' = c0.left';
    done = c0.done;
    as_many = c0.as_many;
    few = let f = c0.few in omega arith;
    few' = let f = c0.few' in omega arith;
    in_kept = λ v. let i = c0.in_kept v in omega (arith, same_indicator v (commit x) (commit' y) e);
    out_kept =
        λ v. let i = c0.out_kept v in omega (arith, same_indicator v (commit x) (commit' y) e);
    in_cut = λ v.
        let i = c0.in_cut v in
        omega (arith, same_indicator v (commit x) (commit' y) e, count-append commit v c (x ∷ []));
    out_cut = λ v.
        let i = c0.out_cut v in
        omega
          (arith, same_indicator v (commit x) (commit' y) e, count-append commit' v c' (y ∷ []));
  }

  pub cut_loop-IsCut :
      (fuel : ℕ) (k c r : List A) (k' c' r' : List B)
      → length r + length r' < fuel
      → length c ≡ length c'
      → IsSortedBy commit r
      → IsSortedBy commit' r'
      → IsCut k c r k' c' r' (cut_loop commit commit' fuel (parts k c r k' c' r'))
  unfolding cut_loop cut_round
  cut_loop-IsCut zero k c r k' c' r' h same s s' = absurd (omega arith)
  cut_loop-IsCut (suc fuel) k c [] k' c' r' h same s s' = record {
    kept = k;
    cut = c;
    left = [];
    kept' = k';
    cut' = c';
    left' = r';
    done = rw (get-end k c) refl;
    as_many = same;
    few = omega arith;
    few' = omega arith;
    in_kept = λ v. omega arith;
    out_kept = λ v. omega arith;
    in_cut = λ v. omega arith;
    out_cut = λ v. omega arith;
  }
  cut_loop-IsCut (suc fuel) k c (x ∷ r) k' c' [] h same s s' = record {
    kept = k;
    cut = c;
    left = x ∷ r;
    kept' = k';
    cut' = c';
    left' = [];
    done = rw (get-rest k c r x, get-end k' c') refl;
    as_many = same;
    few = omega arith;
    few' = omega arith;
    in_kept = λ v. omega arith;
    out_kept = λ v. omega arith;
    in_cut = λ v. omega arith;
    out_cut = λ v. omega arith;
  }
  cut_loop-IsCut (suc fuel) k c (x ∷ r) k' c' (y ∷ r') h same s s' =
      elim (Bool-cases (ltb (commit x) (commit' y))) [
        | inl less ↦
            let at : length k + length c - length c ≡ length k = omega arith in
            let next : length k + length c + 1 ≡ length (k ++ x ∷ []) + length (rotate c) =
              omega (arith, length-append k (x ∷ []), length-rotate c) in
            let turned = length-rotate c in
            rw (get-rest k c r x, get-rest k' c' r' y, less, at, swap-split k c x r, next, ← turned)
              (IsCut-less k c x r k' c' y r' _ (ltb→lt (commit x) (commit' y) less) s' (
                cut_loop-IsCut fuel (k ++ x ∷ []) (rotate c) r k' c' (y ∷ r') (omega arith)
                  (turned ∙ same) (s.1) s'))
        | inr not_less ↦ elim (Bool-cases (ltb (commit' y) (commit x))) [
          | inl greater ↦
              let at : length k' + length c' - length c ≡ length k' = omega arith in
              let next : length k' + length c' + 1 ≡ length (k' ++ y ∷ []) + length (rotate c') =
                omega (arith, length-append k' (y ∷ []), length-rotate c') in
              rw
                (
                  get-rest k c r x,
                  get-rest k' c' r' y,
                  not_less,
                  greater,
                  at,
                  swap-split k' c' y r',
                  next,
                )
                (IsCut-greater k c x r k' c' y r' _ (ltb→lt (commit' y) (commit x) greater) s (
                  cut_loop-IsCut fuel k c (x ∷ r) (k' ++ y ∷ []) (rotate c') r' (omega arith)
                    (same ∙ sym (length-rotate c')) s (s'.1)))
          | inr not_greater ↦
              let next : length k + length c + 1 ≡ length k + length (c ++ x ∷ []) =
                omega (arith, length-append c (x ∷ [])) in
              let next' : length k' + length c' + 1 ≡ length k' + length (c' ++ y ∷ []) =
                omega (arith, length-append c' (y ∷ [])) in
              let longer : length c + 1 ≡ length (c ++ x ∷ []) =
                omega (arith, length-append c (x ∷ [])) in
              rw
                (
                  get-rest k c r x,
                  get-rest k' c' r' y,
                  not_less,
                  not_greater,
                  ← append_assoc c (x ∷ []) r,
                  ← append_assoc c' (y ∷ []) r',
                  next,
                  next',
                  longer,
                )
                (IsCut-equal k c x r k' c' y r' _ (ground arith) (
                  cut_loop-IsCut fuel k (c ++ x ∷ []) r k' (c' ++ y ∷ []) r' (omega arith)
                    (omega (arith, length-append c (x ∷ []), length-append c' (y ∷ []))) (s.1)
                    (s'.1)))
        ]
      ]
