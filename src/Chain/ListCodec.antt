-- ===== src/Chain/ListCodec.antt =====
-- chain/src/linked_list.rs: the values under the two prefixes as bytes.
use grin.Prelude.{ℕ, ◌==◌, if◌then◌else◌}
use grin.Ser.Types.{ByteOrder, corrupted_data}
use grin.Ser.Stream.{Stream, pure, fail, ◌>>=◌}
use grin.Ser.Writer.{Writer, write_u8, write_u64}
use grin.Ser.Reader.{Reader}
use grin.Chain.ListIndex.{CommitPos, ListWrapper, single, multi, ListEntry, head, tail, middle}

module _ (order : ByteOrder) where
  unfoldable pub write_commit_pos : CommitPos → Stream Writer (Unit {0})
  write_commit_pos p = do _ ← write_u64 order (p.pos); write_u64 order (p.height)

  unfoldable pub write_list : ListWrapper → Stream Writer (Unit {0})
  write_list (single pos) = do _ ← write_u8 0; write_commit_pos pos
  write_list (multi first last) = do _ ← write_u8 1; _ ← write_u64 order first; write_u64 order last

  unfoldable pub write_entry : ListEntry → Stream Writer (Unit {0})
  write_entry (head pos next) = do _ ← write_u8 2; _ ← write_commit_pos pos; write_u64 order next
  write_entry (tail pos prev) = do _ ← write_u8 3; _ ← write_commit_pos pos; write_u64 order prev
  write_entry (middle pos next prev) = do
    _ ← write_u8 4
    _ ← write_commit_pos pos
    _ ← write_u64 order next
    write_u64 order prev

module _ {S : Type 0} (r : Reader S) where
  unfoldable pub read_commit_pos : Stream S CommitPos
  read_commit_pos = do
    pos ← r.read_u64
    height ← r.read_u64
    pure (record { pos = pos; height = height })

  unfoldable pub read_single : Stream S ListWrapper
  read_single = do pos ← read_commit_pos; pure (single pos)

  unfoldable pub read_multi_list : Stream S ListWrapper
  read_multi_list = do first ← r.read_u64; last ← r.read_u64; pure (multi first last)

  -- The byte is a ListWrapperVariant.
  unfoldable pub list_variant : ℕ → Stream S ListWrapper
  list_variant variant =
      if variant == 0
      then read_single
      else if variant == 1
      then read_multi_list
      else fail corrupted_data

  unfoldable pub read_list : Stream S ListWrapper
  read_list = do variant ← r.read_u8; list_variant variant

  unfoldable pub read_head : Stream S ListEntry
  read_head = do pos ← read_commit_pos; next ← r.read_u64; pure (head pos next)

  unfoldable pub read_tail : Stream S ListEntry
  read_tail = do pos ← read_commit_pos; prev ← r.read_u64; pure (tail pos prev)

  unfoldable pub read_middle : Stream S ListEntry
  read_middle = do
    pos ← read_commit_pos
    next ← r.read_u64
    prev ← r.read_u64
    pure (middle pos next prev)

  -- The byte is a ListEntryVariant.
  unfoldable pub entry_variant : ℕ → Stream S ListEntry
  entry_variant variant =
      if variant == 2
      then read_head
      else if variant == 3
      then read_tail
      else if variant == 4
      then read_middle
      else fail corrupted_data

  unfoldable pub read_entry : Stream S ListEntry
  read_entry = do variant ← r.read_u8; entry_variant variant
