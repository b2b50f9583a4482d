-- ===== src/Chain/ListSpec.antt =====
-- chain/src/linked_list.rs: what the traits ListIndex, RewindableListIndex and PruneableListIndex
-- promise, as calls on a list for each commitment, and that MultiIndex keeps it.
use grin.Prelude.{
  ℕ, ◌≡◌, inl, inr, refl, arith, List, [], ◌∷◌, ◌==◌, ==_iff, if◌then◌else◌, Option, none, Result,
  ok, err, leb, false, Bool-cases,
}
use grin.Chain.ListIndex.{
  CommitPos, Batch, IndexError, pos_must_be_increasing, update, and_then, peek_pos, push_pos,
  pop_pos, pop_pos_back, rewind, clear,
}
use grin.Chain.Represents.{IsFalling, Agrees, Stores}
use grin.Chain.Pushing.{newest, IsNewer, peek_pos-Stores, push_pos-Stores, push_pos-refused}
use grin.Chain.Popping.{rest, drop_newer, pop_pos-Stores, rewind-Stores}
use grin.Chain.PoppingBack.{oldest, without_oldest, pop_pos_back-Stores}

pub data Call : Type 0 where
  peek : ℕ → Call
  push : ℕ → CommitPos → Call
  pop : ℕ → Call
  pop_back : ℕ → Call
  rewind_to : ℕ → ℕ → Call
  clear_all : Call

abbrev quiet {ℓ} :
    {B : Type ℓ} → Result IndexError (Unit {0} × B) → Result IndexError (Option CommitPos × B)
quiet (ok (u, b)) = ok (none, b)
quiet (err e) = err e

-- A call of the index, with its answer.
unfoldable pub call_index : Call → Batch → Result IndexError (Option CommitPos × Batch)
call_index (peek commit) batch = and_then (peek_pos commit batch) (λ p. ok (p, batch))
call_index (push commit pos) batch = quiet (push_pos commit pos batch)
call_index (pop commit) batch = pop_pos commit batch
call_index (pop_back commit) batch = pop_pos_back commit batch
call_index (rewind_to commit n) batch = quiet (rewind commit n batch)
call_index clear_all batch = quiet (clear batch)

abbrev pub Lists : Type 0
Lists = ℕ → List CommitPos

abbrev push_spec : CommitPos → List CommitPos → Result IndexError (List CommitPos)
push_spec pos [] = ok (pos ∷ [])
push_spec pos (p ∷ ps) =
    if leb (pos.pos) (p.pos) then err pos_must_be_increasing else ok (pos ∷ p ∷ ps)

-- The same call on plain lists.
unfoldable pub call_lists : Call → Lists → Result IndexError (Option CommitPos × Lists)
call_lists (peek commit) lists = ok (newest (lists commit), lists)
call_lists (push commit pos) lists =
    and_then (push_spec pos (lists commit)) (λ xs. ok (none, update lists commit xs))
call_lists (pop commit) lists =
    ok (newest (lists commit), update lists commit (rest (lists commit)))
call_lists (pop_back commit) lists =
    ok (oldest (lists commit), update lists commit (without_oldest (lists commit)))
call_lists (rewind_to commit n) lists = ok (none, update lists commit (drop_newer n (lists commit)))
call_lists clear_all lists = ok (none, λ commit. [])

-- The batch stands for the lists.
abbrev pub Refines : Batch → Lists → Type 0
Refines batch lists = (commit : ℕ) → Stores batch commit (lists commit)

abbrev pub Matches :
    Result IndexError (Option CommitPos × Batch)
    → Result IndexError (Option CommitPos × Lists)
    → Type 0
Matches (ok (a, batch)) (ok (b, lists)) = (a ≡ b) × Refines batch lists
Matches (ok r) (err e) = ⊥
Matches (err e) (ok r) = ⊥
Matches (err e) (err f) = e ≡ f

Refines-update :
    (before after : Batch) (lists : Lists) (commit : ℕ) (xs : List CommitPos)
    → Refines before lists
    → Stores after commit xs
    → Agrees commit before after
    → Refines after (update lists commit xs)
Refines-update before after lists commit xs r s a k = elim (Bool-cases (commit == k)) [
  | inl same ↦ let e = (==_iff commit k).0 same in rw same (rw e at s)
  | inr apart ↦ let (l, e) = a k (ground arith) in rw (apart, l, e) (r k)
]

IsNewer-head :
    (pos p : CommitPos) (ps : List CommitPos)
    → IsFalling (p ∷ ps)
    → leb (pos.pos) (p.pos) ≡ false
    → IsNewer pos (p ∷ ps)
IsNewer-head pos p [] f h = (ground arith, tt)
IsNewer-head pos p (q ∷ qs) f h =
    (ground arith, IsNewer-head pos q qs (f.1) (let lt = f.0.0 in ground arith))

push-Matches :
    (commit : ℕ) (pos : CommitPos) (batch : Batch) (lists : Lists) (xs : List CommitPos)
    → Refines batch lists
    → Stores batch commit xs
    → Matches
        (quiet (push_pos commit pos batch))
        (and_then (push_spec pos xs) (λ ys. ok (none, update lists commit ys)))
push-Matches commit pos batch lists [] r s =
    let (after, e, s', a) = push_pos-Stores commit pos batch [] s tt in
    rw e (refl, Refines-update batch after lists commit (pos ∷ []) r s' a)
push-Matches commit pos batch lists (p ∷ ps) r s = elim (Bool-cases (leb (pos.pos) (p.pos))) [
  | inl late ↦ rw (push_pos-refused commit pos p batch ps s late, late) refl
  | inr newer ↦
      let (after, e, s', a) =
        push_pos-Stores commit pos batch (p ∷ ps) s (IsNewer-head pos p ps (s.1) newer) in
      rw (e, newer) (refl, Refines-update batch after lists commit (pos ∷ p ∷ ps) r s' a)
]

call-Matches :
    (call : Call) (batch : Batch) (lists : Lists)
    → Refines batch lists
    → Matches (call_index call batch) (call_lists call lists)
unfolding call_index call_lists clear
call-Matches (peek commit) batch lists r =
    rw (peek_pos-Stores commit batch (lists commit) (r commit)) (refl, r)
call-Matches (push commit pos) batch lists r =
    push-Matches commit pos batch lists (lists commit) r (r commit)
call-Matches (pop commit) batch lists r =
    let (after, e, s, a) = pop_pos-Stores commit batch (lists commit) (r commit) in
    rw e (refl, Refines-update batch after lists commit (rest (lists commit)) r s a)
call-Matches (pop_back commit) batch lists r =
    let (after, e, s, a) = pop_pos_back-Stores commit batch (lists commit) (r commit) in
    rw e (refl, Refines-update batch after lists commit (without_oldest (lists commit)) r s a)
call-Matches (rewind_to commit n) batch lists r =
    let (after, e, s, a) = rewind-Stores commit n batch (lists commit) (r commit) in
    rw e (refl, Refines-update batch after lists commit (drop_newer n (lists commit)) r s a)
call-Matches clear_all batch lists r = (refl, λ commit. (refl, tt))

-- Calls one after another, up to the first error, with the answers.
unfoldable pub run_index : List Call → Batch → Result IndexError (List (Option CommitPos))
run_index [] batch = ok []
run_index (call ∷ calls) batch =
    and_then (call_index call batch)
      (λ r. and_then (run_index calls (r.1)) (λ answers. ok (r.0 ∷ answers)))

unfoldable pub run_lists : List Call → Lists → Result IndexError (List (Option CommitPos))
run_lists [] lists = ok []
run_lists (call ∷ calls) lists =
    and_then (call_lists call lists)
      (λ r. and_then (run_lists calls (r.1)) (λ answers. ok (r.0 ∷ answers)))

run-Matches :
    (calls : List Call) (batch : Batch) (lists : Lists)
    → Refines batch lists
    → run_index calls batch ≡ run_lists calls lists
unfolding run_index run_lists
run-Matches [] batch lists r = refl
run-Matches (call ∷ calls) batch lists r =
    step (call_index call batch) (call_lists call lists) (call-Matches call batch lists r)
      (λ after lists' m. run-Matches calls after lists' m)
  where
    step :
        (a : Result IndexError (Option CommitPos × Batch))
        (b : Result IndexError (Option CommitPos × Lists))
        → Matches a b
        → ((after : Batch) (lists' : Lists)
            → Refines after lists'
            → run_index calls after ≡ run_lists calls lists')
        → and_then a (λ r. and_then (run_index calls (r.1)) (λ answers. ok (r.0 ∷ answers)))
          ≡ and_then b (λ r. and_then (run_lists calls (r.1)) (λ answers. ok (r.0 ∷ answers)))
    step (ok (x, after)) (ok (y, lists')) (e, m) ih = rw (e, ih after lists' m) refl
    step (err e) (err f) same ih = rw same refl
    step (ok r) (err e) m ih = absurd m
    step (err e) (ok r) m ih = absurd m

abbrev pub empty_batch : Batch
empty_batch = record { lists = λ commit. none; entries = λ commit pos. none }

-- From an empty store, every sequence of calls on any commitments has the answers, and the first
-- error, that plain lists have: push puts a position in front of lower ones only, pop takes the
-- newest, pop_pos_back the oldest, rewind drops all above a position, and clear drops all.
pub run_index-run_lists :
    (calls : List Call) → run_index calls empty_batch ≡ run_lists calls (λ commit. [])
run_index-run_lists calls = run-Matches calls empty_batch (λ commit. []) (λ commit. (refl, tt))
