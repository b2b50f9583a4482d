-- ===== src/Chain/ListIndex.antt =====
-- chain/src/linked_list.rs: MultiIndex, a list of positions for each commitment, linked in both
-- directions over the entries of a key-value store.
use grin.Prelude.{
  ℕ, zero, suc, Bool, false, leb, ltb, ◌==◌, if◌then◌else◌, Option, some, none, Result, ok, err,
}

-- chain/src/types.rs: CommitPos.
pub record CommitPos : Type 0 where
  pub pos : ℕ
  pub height : ℕ

pub data ListWrapper : Type 0 where
  single : CommitPos → ListWrapper
  multi : ℕ → ℕ → ListWrapper

-- A head and its next, a tail and its previous, a middle with both.
pub data ListEntry : Type 0 where
  head : CommitPos → ℕ → ListEntry
  tail : CommitPos → ℕ → ListEntry
  middle : CommitPos → ℕ → ℕ → ListEntry

unfoldable pub get_pos : ListEntry → CommitPos
get_pos (head pos next) = pos
get_pos (tail pos prev) = pos
get_pos (middle pos next prev) = pos

-- The texts of OtherErr.
pub data IndexError : Type 0 where
  pos_must_be_increasing : IndexError
  expected_head : IndexError
  expected_tail : IndexError
  next_was_unexpected : IndexError
  next_missing : IndexError
  prev_was_unexpected : IndexError
  prev_missing : IndexError

-- What the batch sees under the two prefixes. An entry's key is the commitment with the position
-- behind it.
pub record Batch : Type 0 where
  pub lists : ℕ → Option ListWrapper
  pub entries : ℕ → ℕ → Option ListEntry

abbrev pub Run : Type 0 → Type 0
Run A = Batch → Result IndexError (A × Batch)

abbrev pub update {ℓ} : {A : Type ℓ} → (ℕ → A) → ℕ → A → ℕ → A
update f k v j = if k == j then v else f j

abbrev pub put_list : ℕ → Option ListWrapper → Batch → Batch
put_list commit list batch = record {
  lists = update (batch.lists) commit list;
  entries = batch.entries;
}

abbrev pub put_entry : ℕ → ℕ → Option ListEntry → Batch → Batch
put_entry commit pos entry batch = record {
  lists = batch.lists;
  entries = update (batch.entries) commit (update (batch.entries commit) pos entry);
}

unfoldable pub peek_head : Option ListEntry → Result IndexError (Option CommitPos)
peek_head (some (head pos next)) = ok (some pos)
peek_head (some (tail pos prev)) = err expected_head
peek_head (some (middle pos next prev)) = err expected_head
peek_head none = err expected_head

unfoldable pub peek_list : ℕ → Batch → Option ListWrapper → Result IndexError (Option CommitPos)
peek_list commit batch none = ok none
peek_list commit batch (some (single pos)) = ok (some pos)
peek_list commit batch (some (multi first last)) = peek_head (batch.entries commit first)

unfoldable pub peek_pos : ℕ → Batch → Result IndexError (Option CommitPos)
unfolding peek_list peek_head
peek_pos commit batch = peek_list commit batch (batch.lists commit)

unfoldable pub push_head : ℕ → CommitPos → ℕ → Option ListEntry → Run (Unit {0})
push_head commit new_pos last (some (head current_pos current_next)) batch = ok (
  tt,
  put_list commit (some (multi (new_pos.pos) last)) (
      put_entry commit (current_pos.pos) (some (middle current_pos current_next (new_pos.pos)))
        (put_entry commit (new_pos.pos) (some (head new_pos (current_pos.pos))) batch)),
)
push_head commit new_pos last (some (tail pos prev)) batch = err expected_head
push_head commit new_pos last (some (middle pos next prev)) batch = err expected_head
push_head commit new_pos last none batch = err expected_head

unfoldable pub push_list : ℕ → CommitPos → Option ListWrapper → Run (Unit {0})
push_list commit new_pos none batch = ok (tt, put_list commit (some (single new_pos)) batch)
push_list commit new_pos (some (single current_pos)) batch =
    if leb (new_pos.pos) (current_pos.pos)
    then err pos_must_be_increasing
    else ok (
      tt,
      put_list commit (some (multi (new_pos.pos) (current_pos.pos))) (
          put_entry commit (current_pos.pos) (some (tail current_pos (new_pos.pos)))
            (put_entry commit (new_pos.pos) (some (head new_pos (current_pos.pos))) batch)),
    )
push_list commit new_pos (some (multi first last)) batch =
    if leb (new_pos.pos) first
    then err pos_must_be_increasing
    else push_head commit new_pos last (batch.entries commit first) batch

unfoldable pub push_pos : ℕ → CommitPos → Run (Unit {0})
unfolding push_list push_head
push_pos commit new_pos batch = push_list commit new_pos (batch.lists commit) batch

-- The new head of the list, by the entry that follows the old one.
unfoldable pub pop_next : ℕ → ℕ → CommitPos → Option ListEntry → Run (Option CommitPos)
pop_next commit last current_pos (some (middle pos next prev)) batch = ok (
  some current_pos,
  put_list commit (some (multi (pos.pos) last)) (
      put_entry commit (pos.pos) (some (head pos next))
        (put_entry commit (current_pos.pos) none batch)),
)
pop_next commit last current_pos (some (tail pos prev)) batch = ok (
  some current_pos,
  put_list commit (some (single pos)) (put_entry commit (current_pos.pos) none batch),
)
pop_next commit last current_pos (some (head pos next)) batch = err next_was_unexpected
pop_next commit last current_pos none batch = err next_missing

unfoldable pub pop_head : ℕ → ℕ → Option ListEntry → Run (Option CommitPos)
pop_head commit last (some (head current_pos current_next)) batch =
    pop_next commit last current_pos (batch.entries commit current_next) batch
pop_head commit last (some (tail pos prev)) batch = err expected_head
pop_head commit last (some (middle pos next prev)) batch = err expected_head
pop_head commit last none batch = err expected_head

unfoldable pub pop_list : ℕ → Option ListWrapper → Run (Option CommitPos)
pop_list commit none batch = ok (none, batch)
pop_list commit (some (single pos)) batch = ok (some pos, put_list commit none batch)
pop_list commit (some (multi first last)) batch =
    pop_head commit last (batch.entries commit first) batch

unfoldable pub pop_pos : ℕ → Run (Option CommitPos)
unfolding pop_list pop_head pop_next
pop_pos commit batch = pop_list commit (batch.lists commit) batch

-- The new tail of the list, by the entry before the old one.
unfoldable pub pop_prev : ℕ → ℕ → CommitPos → Option ListEntry → Run (Option CommitPos)
pop_prev commit first current_pos (some (middle pos next prev)) batch = ok (
  some current_pos,
  put_list commit (some (multi first (pos.pos))) (
      put_entry commit (pos.pos) (some (tail pos prev))
        (put_entry commit (current_pos.pos) none batch)),
)
pop_prev commit first current_pos (some (head pos next)) batch = ok (
  some current_pos,
  put_list commit (some (single pos)) (put_entry commit (current_pos.pos) none batch),
)
pop_prev commit first current_pos (some (tail pos prev)) batch = err prev_was_unexpected
pop_prev commit first current_pos none batch = err prev_missing

unfoldable pub pop_tail : ℕ → ℕ → Option ListEntry → Run (Option CommitPos)
pop_tail commit first (some (tail current_pos current_prev)) batch =
    pop_prev commit first current_pos (batch.entries commit current_prev) batch
pop_tail commit first (some (head pos next)) batch = err expected_tail
pop_tail commit first (some (middle pos next prev)) batch = err expected_tail
pop_tail commit first none batch = err expected_tail

unfoldable pub pop_list_back : ℕ → Option ListWrapper → Run (Option CommitPos)
pop_list_back commit none batch = ok (none, batch)
pop_list_back commit (some (single pos)) batch = ok (some pos, put_list commit none batch)
pop_list_back commit (some (multi first last)) batch =
    pop_tail commit first (batch.entries commit last) batch

unfoldable pub pop_pos_back : ℕ → Run (Option CommitPos)
unfolding pop_list_back pop_tail pop_prev
pop_pos_back commit batch = pop_list_back commit (batch.lists commit) batch

abbrev pub is_above : ℕ → Option CommitPos → Bool
is_above rewind_pos none = false
is_above rewind_pos (some p) = ltb rewind_pos (p.pos)

abbrev pub and_then {ℓ κ} :
    {A : Type ℓ} {B : Type κ}
    → Result IndexError A
    → (A → Result IndexError B)
    → Result IndexError B
and_then (ok a) f = f a
and_then (err e) f = err e

-- The `while` loop of rewind. The positions fall from one round to the next, so the first one bounds
-- the rounds.
unfoldable pub rewind_loop : ℕ → ℕ → ℕ → Run (Unit {0})
rewind_loop zero commit rewind_pos batch = ok (tt, batch)
rewind_loop (suc fuel) commit rewind_pos batch =
    let next = and_then (pop_pos commit batch) (λ r. rewind_loop fuel commit rewind_pos (r.1)) in
    and_then (peek_pos commit batch) (λ p. if is_above rewind_pos p then next else ok (tt, batch))

abbrev pub rounds : Option CommitPos → ℕ
rounds none = 0
rounds (some p) = suc (p.pos)

unfoldable pub rewind : ℕ → ℕ → Run (Unit {0})
rewind commit rewind_pos batch =
    and_then (peek_pos commit batch) (λ p. rewind_loop (rounds p) commit rewind_pos batch)

-- Both prefixes are emptied.
unfoldable pub clear : Run (Unit {0})
clear batch = ok (tt, record { lists = λ commit. none; entries = λ commit pos. none })
