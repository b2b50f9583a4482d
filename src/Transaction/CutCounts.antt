-- ===== src/Transaction/CutCounts.antt =====
-- core/src/core/transaction.rs: what cut_through returns, by counts of commitments.
use grin.Prelude.{
  ℕ, ◌+◌, ◌-◌, ◌≡◌, ◌⊎◌, inl, inr, refl, sym, ◌∙◌, arith, min, List, [], ◌++◌, map, length,
  length-append, take, drop, take-append, drop-append, some, ok, err, Bool-cases,
}
use grin.Prelude.Sorting.{sort, any_adjacent, IsDistinct}
use grin.Prelude.Counting.{count, count-sort, length-sort, sort-IsSortedBy, any_adjacent-map-sort}
use grin.Transaction.Errors.{cut_through as cut_through_error}
use grin.Transaction.CutThrough.{CutResult, cut_loop, shift_loop, split_cut, check_cut, cut_through}
use grin.Transaction.Swaps.{Shifted, shift_loop-Shifted}
use grin.Transaction.Cutting.{IsCut, parts, cut_loop-IsCut}

kept_part :
    {C : Type 0} (key order : C → ℕ) (v : ℕ) (kept cut : List C)
    → count key v (sort order (take (length (kept ++ cut) - length cut) (kept ++ cut)))
      ≡ count key v kept
kept_part key order v kept cut =
    let e : length (kept ++ cut) - length cut ≡ length kept =
      omega (arith, length-append kept cut) in
    rw (e, take-append (length kept) kept cut refl) (count-sort key order v kept)

cut_part :
    {C : Type 0} (key order : C → ℕ) (v : ℕ) (kept cut : List C)
    → count key v (sort order (drop (length (kept ++ cut) - length cut) (kept ++ cut)))
      ≡ count key v cut
cut_part key order v kept cut =
    let e : length (kept ++ cut) - length cut ≡ length kept =
      omega (arith, length-append kept cut) in
    rw (e, drop-append (length kept) kept cut refl) (count-sort key order v cut)

module _ {A B : Type 0} (commit : A → ℕ) (commit' : B → ℕ) (hash : A → ℕ) (hash' : B → ℕ) where
  -- Of each commitment there stay as many inputs as there are more than outputs, and as many outputs
  -- as there are more than inputs; the others go in pairs.
  pub record IsBalanced (inputs : List A) (outputs : List B) (res : CutResult A B) : Type 0 where
    pub in_kept :
        (v : ℕ) → count commit v (res.inputs) ≡ count commit v inputs - count commit' v outputs
    pub out_kept :
        (v : ℕ) → count commit' v (res.outputs) ≡ count commit' v outputs - count commit v inputs
    pub in_cut :
        (v : ℕ)
        → count commit v (res.inputs_cut) ≡ min (count commit v inputs) (count commit' v outputs)
    pub out_cut :
        (v : ℕ)
        → count commit' v (res.outputs_cut) ≡ min (count commit v inputs) (count commit' v outputs)

  -- No input and no output is left twice.
  abbrev pub IsUnique : CutResult A B → Type 0
  IsUnique res = IsDistinct (map hash (res.inputs)) × IsDistinct (map hash' (res.outputs))

  check_cut-split_cut :
      (ncut : ℕ) (ins : List A) (outs : List B)
      → let res = split_cut commit commit' hash hash' ncut ins outs in
        (IsUnique res × (some (check_cut commit commit' hash hash' res) ≡ some (ok res)))
        ⊎ ((¬ IsUnique res)
            × (some (check_cut commit commit' hash hash' res) ≡ some (err cut_through_error)))
  unfolding check_cut split_cut
  check_cut-split_cut ncut ins outs =
      let (there, back) = any_adjacent-map-sort hash (take (length ins - ncut) ins) in
      let (there', back') = any_adjacent-map-sort hash' (take (length outs - ncut) outs) in
      let dup = any_adjacent (map hash (sort hash (take (length ins - ncut) ins))) in
      let dup' = any_adjacent (map hash' (sort hash' (take (length outs - ncut) outs))) in
      elim (Bool-cases dup) [
        | inl twice ↦ inr ((λ u. let e = back (u.0) in cc), rw twice refl)
        | inr once ↦ elim (Bool-cases dup') [
          | inl twice ↦ inr ((λ u. let e = back' (u.1) in cc), rw (once, twice) refl)
          | inr once' ↦ inl ((there once, there' once'), rw (once, once') refl)
        ]
      ]

  split_cut-IsBalanced :
      (inputs : List A) (outputs : List B) (ncut : ℕ) (k1 c1 : List A) (k1' c1' : List B)
      → length c1 ≡ ncut
      → length c1' ≡ ncut
      → ((v : ℕ) → count commit v k1 ≡ count commit v inputs - count commit' v outputs)
      → ((v : ℕ) → count commit' v k1' ≡ count commit' v outputs - count commit v inputs)
      → ((v : ℕ) → count commit v c1 ≡ min (count commit v inputs) (count commit' v outputs))
      → ((v : ℕ) → count commit' v c1' ≡ min (count commit v inputs) (count commit' v outputs))
      → IsBalanced inputs outputs (split_cut commit commit' hash hash' ncut (k1 ++ c1) (k1' ++ c1'))
  unfolding split_cut
  split_cut-IsBalanced inputs outputs ncut k1 c1 k1' c1' e e' a b m n = record {
    in_kept = λ v. rw (← e) (kept_part commit hash v k1 c1 ∙ a v);
    out_kept = λ v. rw (← e') (kept_part commit' hash' v k1' c1' ∙ b v);
    in_cut = λ v. rw (← e) (cut_part commit hash v k1 c1 ∙ m v);
    out_cut = λ v. rw (← e') (cut_part commit' hash' v k1' c1' ∙ n v);
  }

  finished :
      (inputs : List A) (outputs : List B)
      (c : IsCut commit commit' [] [] (sort commit inputs) [] [] (sort commit' outputs) (
        cut_loop commit commit'
          (length inputs + length outputs + 1)
          (parts commit commit' [] [] (sort commit inputs) [] [] (sort commit' outputs))))
      → Shifted commit (c.kept) (c.cut) (c.left) (
          shift_loop
            (length inputs + 1)
            (c.kept ++ (c.cut ++ c.left))
            (length (c.kept) + length (c.cut))
            (length (c.cut)))
      → Shifted commit' (c.kept') (c.cut') (c.left') (
          shift_loop
            (length outputs + 1)
            (c.kept' ++ (c.cut' ++ c.left'))
            (length (c.kept') + length (c.cut'))
            (length (c.cut')))
      → (res : CutResult A B) × IsBalanced inputs outputs res
        × ((IsUnique res × (cut_through commit commit' hash hash' inputs outputs ≡ some (ok res)))
            ⊎ ((¬ IsUnique res)
                × (cut_through commit commit' hash hash' inputs outputs
                    ≡ some (err cut_through_error))))
  unfolding cut_through
  finished inputs outputs c a b =
      let n = length (c.cut) in
      let second : shift_loop (length outputs + 1) (c.kept' ++ (c.cut' ++ c.left'))
            (length (c.kept') + length (c.cut')) (length (c.cut))
          ≡ some (b.kept ++ b.cut) =
        rw (c.as_many) (b.done) in
      (
        split_cut commit commit' hash hash' n (a.kept ++ a.cut) (b.kept ++ b.cut),
        split_cut-IsBalanced inputs outputs n (a.kept) (a.cut) (b.kept) (b.cut) (a.as_many)
            (b.as_many ∙ sym (c.as_many))
            (λ v.
              let x = a.kept_count v in
              let y = c.in_kept v in
              omega
                (arith, count-sort commit commit v inputs, count-sort commit' commit' v outputs))
            (λ v.
              let x = b.kept_count v in
              let y = c.out_kept v in
              omega
                (arith, count-sort commit commit v inputs, count-sort commit' commit' v outputs))
            (λ v.
              let x = a.cut_count v in
              let y = c.in_cut v in
              omega
                (arith, count-sort commit commit v inputs, count-sort commit' commit' v outputs))
            (λ v.
              let x = b.cut_count v in
              let y = c.out_cut v in
              omega
                (arith, count-sort commit commit v inputs, count-sort commit' commit' v outputs)),
        rw (c.done, a.done, second) (check_cut-split_cut n (a.kept ++ a.cut) (b.kept ++ b.cut)),
      )

  -- cut_through never panics. Of each commitment it keeps as many inputs as there are more than
  -- outputs, and as many outputs as there are more than inputs, and cuts as many of both as there
  -- are of the fewer. The result is returned exactly where no two kept inputs and no two kept
  -- outputs have one hash, and else it is the error CutThrough.
  pub cut_through-IsBalanced :
      (inputs : List A) (outputs : List B)
      → (res : CutResult A B) × IsBalanced inputs outputs res
        × ((IsUnique res × (cut_through commit commit' hash hash' inputs outputs ≡ some (ok res)))
            ⊎ ((¬ IsUnique res)
                × (cut_through commit commit' hash hash' inputs outputs
                    ≡ some (err cut_through_error))))
  unfolding cut_through
  cut_through-IsBalanced inputs outputs =
      let size = length-sort commit inputs in
      let size' = length-sort commit' outputs in
      let c =
        cut_loop-IsCut commit commit' (length inputs + length outputs + 1) [] []
          (sort commit inputs) [] [] (sort commit' outputs) (omega arith) refl
          (sort-IsSortedBy commit inputs) (sort-IsSortedBy commit' outputs) in
      finished inputs outputs c
        (shift_loop-Shifted commit (length inputs + 1) (c.kept) (c.cut) (c.left)
          (let f = c.few in omega arith))
        (shift_loop-Shifted commit' (length outputs + 1) (c.kept') (c.cut') (c.left')
          (let f = c.few' in omega arith))
