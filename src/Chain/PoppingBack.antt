-- ===== src/Chain/PoppingBack.antt =====
-- chain/src/linked_list.rs: pop_pos_back on the list that the entries stand for.
use grin.Prelude.{ℕ, ◌<◌, ◌≡◌, refl, arith, List, [], ◌∷◌, All, Option, some, none}
use grin.Chain.ListIndex.{
  CommitPos, single, multi, ListEntry, tail, middle, Batch, update, pop_pos_back,
}
use grin.Chain.Represents.{
  last, IsLinked, IsFalling, Agrees-refl, Stores, Leaves, Leaves-list, Leaves-entry, Leaves-entries,
}

-- From the back: the entry before the last, what it points back to, and all but the last.
abbrev before_last : CommitPos → CommitPos → List CommitPos → CommitPos
before_last p q [] = p
before_last p q (r ∷ rs) = before_last q r rs

abbrev back_link : ℕ → CommitPos → CommitPos → List CommitPos → ℕ
back_link prev p q [] = prev
back_link prev p q (r ∷ rs) = back_link (p.pos) q r rs

abbrev all_but_last : CommitPos → List CommitPos → List CommitPos
all_but_last p [] = []
all_but_last p (q ∷ qs) = p ∷ all_but_last q qs

last_entry :
    (entries : ℕ → Option ListEntry) (p q : CommitPos) (rs : List CommitPos)
    → IsLinked entries (p.pos) q rs
    → entries (last q rs).pos ≡ some (tail (last q rs) (before_last p q rs).pos)
last_entry entries p q [] l = l
last_entry entries p q (r ∷ rs) l = last_entry entries q r rs (l.1)

before_last_entry :
    (entries : ℕ → Option ListEntry) (prev : ℕ) (p q : CommitPos) (rs : List CommitPos)
    → IsLinked entries prev p (q ∷ rs)
    → entries (before_last p q rs).pos
      ≡ some (middle (before_last p q rs) (last q rs).pos (back_link prev p q rs))
before_last_entry entries prev p q [] l = l.0
before_last_entry entries prev p q (r ∷ rs) l = before_last_entry entries (p.pos) q r rs (l.1)

last_below :
    (k : ℕ) (q : CommitPos) (rs : List CommitPos)
    → All (λ (r : CommitPos). r.pos < k) (q ∷ rs)
    → (last q rs).pos < k
last_below k q [] h = h.0
last_below k q (r ∷ rs) h = last_below k r rs (h.1)

before_last_below :
    (k : ℕ) (p q : CommitPos) (rs : List CommitPos)
    → All (λ (r : CommitPos). r.pos < k) (p ∷ q ∷ rs)
    → (before_last p q rs).pos < k
before_last_below k p q [] h = h.0
before_last_below k p q (r ∷ rs) h = before_last_below k q r rs (h.1)

-- The last entry goes, and the one before it becomes the tail.
IsLinked-shorter :
    (entries : ℕ → Option ListEntry) (prev : ℕ) (p q : CommitPos) (rs : List CommitPos)
    → IsLinked entries prev p (q ∷ rs)
    → IsFalling (p ∷ q ∷ rs)
    → IsLinked
        (update
          (update entries (last q rs).pos none)
          (before_last p q rs).pos
          (some (tail (before_last p q rs) (back_link prev p q rs))))
        prev
        p
        (all_but_last q rs)
IsLinked-shorter entries prev p q [] l f = ground arith
IsLinked-shorter entries prev p q (r ∷ rs) l f =
    let low = last_below (p.pos) r rs (f.0.1) in
    let lower = before_last_below (p.pos) q r rs (f.0) in
    (ground arith, IsLinked-shorter entries (p.pos) q r rs (l.1) (f.1))

All-all_but_last :
    (k : ℕ) (q : CommitPos) (rs : List CommitPos)
    → All (λ (r : CommitPos). r.pos < k) (q ∷ rs)
    → All (λ (r : CommitPos). r.pos < k) (all_but_last q rs)
All-all_but_last k q [] h = tt
All-all_but_last k q (r ∷ rs) h = (h.0, All-all_but_last k r rs (h.1))

IsFalling-all_but_last :
    (p : CommitPos) (qs : List CommitPos) → IsFalling (p ∷ qs) → IsFalling (all_but_last p qs)
IsFalling-all_but_last p [] f = tt
IsFalling-all_but_last p (q ∷ qs) f =
    (All-all_but_last (p.pos) q qs (f.0), IsFalling-all_but_last q qs (f.1))

last-all_but_last :
    (p q : CommitPos) (rs : List CommitPos) → last p (all_but_last q rs) ≡ before_last p q rs
last-all_but_last p q [] = refl
last-all_but_last p q (r ∷ rs) = last-all_but_last q r rs

abbrev pub oldest : List CommitPos → Option CommitPos
oldest [] = none
oldest (p ∷ ps) = some (last p ps)

abbrev pub without_oldest : List CommitPos → List CommitPos
without_oldest [] = []
without_oldest (p ∷ ps) = all_but_last p ps

pub pop_pos_back-Stores :
    (commit : ℕ) (batch : Batch) (xs : List CommitPos)
    → Stores batch commit xs
    → Leaves batch commit (pop_pos_back commit batch) (oldest xs) (without_oldest xs)
unfolding pop_pos_back
pop_pos_back-Stores commit batch [] (h, f) = rw h (batch, refl, (h, tt), Agrees-refl commit batch)
pop_pos_back-Stores commit batch (p ∷ []) (h, f) =
    rw h (Leaves-list commit batch none (some p) [] refl tt)
pop_pos_back-Stores commit batch (p ∷ q ∷ []) (h, f) =
    rw (h.0, h.2, h.1)
      (Leaves-entry commit batch (some (single p)) (some q) (p ∷ []) (q.pos) none refl (tt, tt))
pop_pos_back-Stores commit batch (p ∷ q ∷ r ∷ rs) (h, f) =
    let entries = batch.entries commit in
    let low = last_below (q.pos) r rs (f.1.0) in
    let lower = before_last_below (p.pos) q r rs (f.0) in
    let below = last_below (p.pos) q (r ∷ rs) (f.0) in
    rw (h.0, last_entry entries p q (r ∷ rs) (h.2), before_last_entry entries (p.pos) q r rs (h.2))
      (Leaves-entries commit batch (some (multi (p.pos) (before_last q r rs).pos))
        (some (last r rs)) (p ∷ all_but_last q (r ∷ rs)) (last r rs).pos (before_last q r rs).pos
        none (some (tail (before_last q r rs) (back_link (p.pos) q r rs)))
        (
          rw (last-all_but_last q r rs) refl,
          ground arith,
          IsLinked-shorter entries (p.pos) q r rs (h.2) (f.1),
        )
        (IsFalling-all_but_last p (q ∷ r ∷ rs) f))
