-- ===== src/Chain/Popping.antt =====
-- chain/src/linked_list.rs: pop_pos, pop_pos_back and rewind on the list that the entries stand for.
use grin.Prelude.{
  ℕ, zero, suc, ◌≤◌, ◌<◌, inl, inr, refl, arith, List, [], ◌∷◌, length, All, if◌then◌else◌, some,
  none, ltb, Bool-cases,
}
use grin.Chain.ListIndex.{
  CommitPos, single, multi, head, Batch, update, pop_pos, rewind, rewind_loop,
}
use grin.Chain.Represents.{
  last, IsFalling, IsLinked-update, Agrees, Agrees-refl, Stores, Leaves, Leaves-list, Leaves-entry,
  Leaves-entries,
}
use grin.Chain.Pushing.{ne_of_below, newest, peek_pos-Stores}

abbrev pub rest : List CommitPos → List CommitPos
rest [] = []
rest (p ∷ ps) = ps

pub pop_pos-Stores :
    (commit : ℕ) (batch : Batch) (xs : List CommitPos)
    → Stores batch commit xs
    → Leaves batch commit (pop_pos commit batch) (newest xs) (rest xs)
unfolding pop_pos
pop_pos-Stores commit batch [] (h, f) = rw h (batch, refl, (h, tt), Agrees-refl commit batch)
pop_pos-Stores commit batch (p ∷ []) (h, f) =
    rw h (Leaves-list commit batch none (some p) [] refl tt)
pop_pos-Stores commit batch (p ∷ q ∷ []) (h, f) =
    rw (h.0, h.1, h.2)
      (Leaves-entry commit batch (some (single q)) (some p) (q ∷ []) (p.pos) none refl (f.1))
pop_pos-Stores commit batch (p ∷ q ∷ r ∷ rs) (h, f) =
    rw (h.0, h.1, h.2.0)
      (Leaves-entries commit batch (some (multi (q.pos) (last r rs).pos)) (some p) (q ∷ r ∷ rs)
        (p.pos) (q.pos) none (some (head q (r.pos)))
        (
          refl,
          ground arith,
          IsLinked-update (update (batch.entries commit) (p.pos) none) (q.pos)
              (some (head q (r.pos))) (q.pos) r rs (ne_of_below (q.pos) (r ∷ rs) (f.1.0))
              (IsLinked-update (batch.entries commit) (p.pos) none (q.pos) r rs
                (ne_of_below (p.pos) (r ∷ rs) (f.0.1)) (h.2.1)),
        )
        (f.1))

-- The list without what is newer than a position.
abbrev pub drop_newer : ℕ → List CommitPos → List CommitPos
drop_newer n [] = []
drop_newer n (p ∷ ps) = if ltb n (p.pos) then drop_newer n ps else p ∷ ps

Agrees-trans :
    (commit : ℕ) (a b c : Batch) → Agrees commit a b → Agrees commit b c → Agrees commit a c
Agrees-trans commit a b c f g k h =
    let (l1, e1) = f k h in let (l2, e2) = g k h in (ground arith, ground arith)

rewind_loop-Stores :
    (fuel commit n : ℕ) (batch : Batch) (xs : List CommitPos)
    → length xs ≤ fuel
    → Stores batch commit xs
    → Leaves batch commit (rewind_loop fuel commit n batch) tt (drop_newer n xs)
unfolding rewind_loop
rewind_loop-Stores zero commit n batch [] len s = (batch, refl, s, Agrees-refl commit batch)
rewind_loop-Stores zero commit n batch (p ∷ ps) len s = absurd (omega arith)
rewind_loop-Stores (suc fuel) commit n batch [] len s =
    rw (peek_pos-Stores commit batch [] s) (batch, refl, s, Agrees-refl commit batch)
rewind_loop-Stores (suc fuel) commit n batch (p ∷ ps) len s = elim (Bool-cases (ltb n (p.pos))) [
  | inr old ↦
      rw (peek_pos-Stores commit batch (p ∷ ps) s, old) (batch, refl, s, Agrees-refl commit batch)
  | inl new ↦
      let (b1, e1, s1, a1) = pop_pos-Stores commit batch (p ∷ ps) s in
      let (b2, e2, s2, a2) = rewind_loop-Stores fuel commit n b1 ps (omega arith) s1 in
      rw (peek_pos-Stores commit batch (p ∷ ps) s, new, e1)
        (b2, e2, s2, Agrees-trans commit batch b1 b2 a1 a2)
]

-- Positions that fall are no more than the first one and one.
length-le :
    (k : ℕ) (xs : List CommitPos)
    → All (λ (q : CommitPos). q.pos < k) xs
    → IsFalling xs
    → length xs ≤ k
length-le k [] h f = omega arith
length-le k (p ∷ ps) h f = omega (arith, length-le (p.pos) ps (f.0) (f.1))

pub rewind-Stores :
    (commit n : ℕ) (batch : Batch) (xs : List CommitPos)
    → Stores batch commit xs
    → Leaves batch commit (rewind commit n batch) tt (drop_newer n xs)
unfolding rewind
rewind-Stores commit n batch [] s =
    rw (peek_pos-Stores commit batch [] s) (rewind_loop-Stores 0 commit n batch [] (omega arith) s)
rewind-Stores commit n batch (p ∷ ps) (h, f) =
    let few = length-le (p.pos) ps (f.0) (f.1) in
    rw (peek_pos-Stores commit batch (p ∷ ps) (h, f))
      (rewind_loop-Stores (suc (p.pos)) commit n batch (p ∷ ps) (omega arith) (h, f))
