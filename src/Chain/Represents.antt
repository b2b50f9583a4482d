-- ===== src/Chain/Represents.antt =====
-- chain/src/linked_list.rs: the list that the entries of a commitment stand for.
use grin.Prelude.{ℕ, ◌<◌, ◌≡◌, ◌≢◌, refl, arith, List, [], ◌∷◌, All, Option, some, none, Result, ok}
use grin.Chain.ListIndex.{
  CommitPos, ListWrapper, single, multi, ListEntry, head, tail, middle, Batch, update, put_list,
  put_entry, IndexError,
}

abbrev pub last : CommitPos → List CommitPos → CommitPos
last q [] = q
last q (r ∷ rs) = last r rs

-- The entries behind the head: a middle for each, and the tail.
abbrev pub IsLinked : (ℕ → Option ListEntry) → ℕ → CommitPos → List CommitPos → Type 0
IsLinked entries prev q [] = entries (q.pos) ≡ some (tail q prev)
IsLinked entries prev q (r ∷ rs) =
    (entries (q.pos) ≡ some (middle q (r.pos) prev)) × IsLinked entries (q.pos) r rs

-- The newest position stands first.
abbrev pub Holds : Option ListWrapper → (ℕ → Option ListEntry) → List CommitPos → Type 0
Holds list entries [] = list ≡ none
Holds list entries (p ∷ []) = list ≡ some (single p)
Holds list entries (p ∷ q ∷ rs) =
    (list ≡ some (multi (p.pos) (last q rs).pos))
    × (entries (p.pos) ≡ some (head p (q.pos)))
    × IsLinked entries (p.pos) q rs

abbrev pub IsFalling : List CommitPos → Type 0
IsFalling [] = Unit {0}
IsFalling (p ∷ ps) = All (λ (q : CommitPos). q.pos < p.pos) ps × IsFalling ps

-- A change at a position that no entry has changes nothing.
pub IsLinked-update :
    (entries : ℕ → Option ListEntry) (k : ℕ) (v : Option ListEntry) (prev : ℕ) (q : CommitPos)
    (rs : List CommitPos)
    → All (λ (r : CommitPos). r.pos ≢ k) (q ∷ rs)
    → IsLinked entries prev q rs
    → IsLinked (update entries k v) prev q rs
IsLinked-update entries k v prev q [] h l = ground arith
IsLinked-update entries k v prev q (r ∷ rs) h l =
    (ground arith, IsLinked-update entries k v (q.pos) r rs (h.1) (l.1))

-- Nothing changes for the other commitments.
abbrev pub Agrees : ℕ → Batch → Batch → Type 0
Agrees commit before after =
    (c : ℕ) → c ≢ commit → (after.lists c ≡ before.lists c) × (after.entries c ≡ before.entries c)

pub Agrees-refl : (commit : ℕ) (batch : Batch) → Agrees commit batch batch
Agrees-refl commit batch c h = (refl, refl)

pub Agrees-put_list :
    (commit : ℕ) (list : Option ListWrapper) (before after : Batch)
    → Agrees commit before after
    → Agrees commit before (put_list commit list after)
Agrees-put_list commit list before after a c h = let (l, e) = a c h in (ground arith, e)

pub Agrees-put_entry :
    (commit pos : ℕ) (entry : Option ListEntry) (before after : Batch)
    → Agrees commit before after
    → Agrees commit before (put_entry commit pos entry after)
Agrees-put_entry commit pos entry before after a c h = let (l, e) = a c h in (l, ground arith)

entries-put_entry :
    (commit pos : ℕ) (entry : Option ListEntry) (batch : Batch)
    → (put_entry commit pos entry batch).entries commit ≡ update (batch.entries commit) pos entry
entries-put_entry commit pos entry batch = ground arith

-- The batch stands for this list under the commitment.
abbrev pub Stores : Batch → ℕ → List CommitPos → Type 0
Stores batch commit xs = Holds (batch.lists commit) (batch.entries commit) xs × IsFalling xs

-- The run succeeds with an answer, leaves the list, and touches no other commitment.
abbrev pub Leaves {ℓ} :
    {A : Type ℓ} → Batch → ℕ → Result IndexError (A × Batch) → A → List CommitPos → Type ℓ
Leaves before commit res answer xs =
    (after : Batch) × (res ≡ ok (answer, after))
    × Stores after commit xs
    × Agrees commit before after

module _ (commit : ℕ) (batch : Batch) (list : Option ListWrapper) {A : Type 0} (answer : A)
    (xs : List CommitPos) where
  pub Leaves-list :
      Holds list (batch.entries commit) xs
      → IsFalling xs
      → Leaves batch commit (ok (answer, put_list commit list batch)) answer xs
  Leaves-list h f =
      let same : (put_list commit list batch).lists commit ≡ list = ground arith in
      (
        put_list commit list batch,
        refl,
        (rw same h, f),
        Agrees-put_list commit list batch batch (Agrees-refl commit batch),
      )

  -- After a change of one entry, and after changes of two.
  pub Leaves-entry :
      (a : ℕ) (v : Option ListEntry)
      → Holds list (update (batch.entries commit) a v) xs
      → IsFalling xs
      → Leaves batch commit
          (ok (answer, put_list commit list (put_entry commit a v batch)))
          answer
          xs
  Leaves-entry a v h f =
      let one = put_entry commit a v batch in
      let same : (put_list commit list one).lists commit ≡ list = ground arith in
      let entries = entries-put_entry commit a v batch in
      (
        put_list commit list one,
        refl,
        (rw (same, entries) h, f),
        Agrees-put_list commit list batch one
            (Agrees-put_entry commit a v batch batch (Agrees-refl commit batch)),
      )

  pub Leaves-entries :
      (a b : ℕ) (v w : Option ListEntry)
      → Holds list (update (update (batch.entries commit) a v) b w) xs
      → IsFalling xs
      → Leaves batch commit
          (ok (answer, put_list commit list (put_entry commit b w (put_entry commit a v batch))))
          answer
          xs
  Leaves-entries a b v w h f =
      let one = put_entry commit a v batch in
      let two = put_entry commit b w one in
      let same : (put_list commit list two).lists commit ≡ list = ground arith in
      let entries = entries-put_entry commit b w one in
      let inner = entries-put_entry commit a v batch in
      (
        put_list commit list two,
        refl,
        (rw (same, entries, inner) h, f),
        Agrees-put_list commit list batch two (
            Agrees-put_entry commit b w batch one
              (Agrees-put_entry commit a v batch batch (Agrees-refl commit batch))),
      )
