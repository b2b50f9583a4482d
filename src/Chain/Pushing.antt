-- ===== src/Chain/Pushing.antt =====
-- chain/src/linked_list.rs: push_pos and peek_pos on the list that the entries stand for.
use grin.Prelude.{
  ℕ, ◌<◌, ◌≡◌, ◌≢◌, refl, arith, List, [], ◌∷◌, All, Option, some, none, ok, err, leb, true, false,
}
use grin.Chain.ListIndex.{
  CommitPos, single, multi, head, tail, middle, Batch, update, push_pos, peek_pos,
  pos_must_be_increasing,
}
use grin.Chain.Represents.{last, IsLinked-update, Stores, Leaves, Leaves-list, Leaves-entries}

abbrev pub newest : List CommitPos → Option CommitPos
newest [] = none
newest (p ∷ ps) = some p

pub peek_pos-Stores :
    (commit : ℕ) (batch : Batch) (xs : List CommitPos)
    → Stores batch commit xs
    → peek_pos commit batch ≡ ok (newest xs)
unfolding peek_pos
peek_pos-Stores commit batch [] (h, f) = rw h refl
peek_pos-Stores commit batch (p ∷ []) (h, f) = rw h refl
peek_pos-Stores commit batch (p ∷ q ∷ rs) (h, f) = rw (h.0, h.1) refl

-- Only what is newer than the newest is taken.
abbrev pub IsNewer : CommitPos → List CommitPos → Type 0
IsNewer new_pos xs = All (λ (q : CommitPos). q.pos < new_pos.pos) xs

pub ne_of_below :
    (k : ℕ) (xs : List CommitPos)
    → All (λ (q : CommitPos). q.pos < k) xs
    → All (λ (q : CommitPos). q.pos ≢ k) xs
ne_of_below k [] h = tt
ne_of_below k (q ∷ qs) h = (ground arith, ne_of_below k qs (h.1))

pub push_pos-Stores :
    (commit : ℕ) (new_pos : CommitPos) (batch : Batch) (xs : List CommitPos)
    → Stores batch commit xs
    → IsNewer new_pos xs
    → Leaves batch commit (push_pos commit new_pos batch) tt (new_pos ∷ xs)
unfolding push_pos
push_pos-Stores commit new_pos batch [] (h, f) newer =
    rw h (Leaves-list commit batch (some (single new_pos)) tt (new_pos ∷ []) refl (tt, tt))
push_pos-Stores commit new_pos batch (p ∷ []) (h, f) newer =
    let higher : leb (new_pos.pos) (p.pos) ≡ false = ground arith in
    rw (h, higher)
      (Leaves-entries commit batch (some (multi (new_pos.pos) (p.pos))) tt (new_pos ∷ p ∷ [])
        (new_pos.pos) (p.pos) (some (head new_pos (p.pos))) (some (tail p (new_pos.pos)))
        (refl, ground arith, ground arith) (newer, f))
push_pos-Stores commit new_pos batch (p ∷ q ∷ rs) (h, f) newer =
    let higher : leb (new_pos.pos) (p.pos) ≡ false = ground arith in
    rw (h.0, higher, h.1)
      (Leaves-entries commit batch (some (multi (new_pos.pos) (last q rs).pos)) tt
        (new_pos ∷ p ∷ q ∷ rs) (new_pos.pos) (p.pos) (some (head new_pos (p.pos)))
        (some (middle p (q.pos) (new_pos.pos)))
        (
          refl,
          ground arith,
          (
            ground arith,
            IsLinked-update
                (update (batch.entries commit) (new_pos.pos) (some (head new_pos (p.pos)))) (p.pos)
                (some (middle p (q.pos) (new_pos.pos))) (p.pos) q rs
                (ne_of_below (p.pos) (q ∷ rs) (f.0))
                (IsLinked-update (batch.entries commit) (new_pos.pos) (some (head new_pos (p.pos)))
                  (p.pos) q rs (ne_of_below (new_pos.pos) (q ∷ rs) (newer.1)) (h.2)),
          ),
        )
        (newer, f))

pub push_pos-refused :
    (commit : ℕ) (new_pos p : CommitPos) (batch : Batch) (xs : List CommitPos)
    → Stores batch commit (p ∷ xs)
    → leb (new_pos.pos) (p.pos) ≡ true
    → push_pos commit new_pos batch ≡ err pos_must_be_increasing
unfolding push_pos
push_pos-refused commit new_pos p batch [] (h, f) late = rw (h, late) refl
push_pos-refused commit new_pos p batch (q ∷ rs) (h, f) late = rw (h.0, late) refl
