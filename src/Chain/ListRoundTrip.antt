-- ===== src/Chain/ListRoundTrip.antt =====
-- chain/src/linked_list.rs: what put_ser writes, get_ser reads back.
use grin.Prelude.{arith, ℕ, ◌^◌, ◌<◌, ◌≡◌, refl, List, [], ◌∷◌, ◌++◌, ok}
use grin.Ser.Types.{ByteOrder}
use grin.Ser.Source.{full}
use grin.Ser.Stream.{◌>>=◌}
use grin.Ser.BinReader.{BinReader, reader}
use grin.Ser.BinLaws.{bin_laws}
use grin.Ser.Writer.{write_u8, write_u64}
use grin.Ser.Reader.{Reader}
use grin.Ser.Laws.{ReaderLaws}
use grin.Ser.Coding.{sink_of, Appends-fixed, Coded, Coded-one, Coded-two, Coded-three, Coded-then}
use grin.Ser.FieldCoding.{Coded-u64}
use grin.Chain.ListIndex.{CommitPos, ListWrapper, single, multi, ListEntry, head, tail, middle}
use grin.Chain.ListCodec.{
  write_commit_pos, write_list, write_entry, read_commit_pos, read_list, list_variant, read_entry,
  entry_variant, read_single, read_multi_list, read_head, read_tail, read_middle,
}

abbrev pub FitsPos : CommitPos → Type 0
FitsPos p = (p.pos < 2 ^ 64) × (p.height < 2 ^ 64)

abbrev pub FitsList : ListWrapper → Type 0
FitsList (single pos) = FitsPos pos
FitsList (multi first last) = (first < 2 ^ 64) × (last < 2 ^ 64)

abbrev pub FitsEntry : ListEntry → Type 0
FitsEntry (head pos next) = FitsPos pos × (next < 2 ^ 64)
FitsEntry (tail pos prev) = FitsPos pos × (prev < 2 ^ 64)
FitsEntry (middle pos next prev) = FitsPos pos × (next < 2 ^ 64) × (prev < 2 ^ 64)

module _ (order : ByteOrder) (S : Type 0) (r : Reader S) (laws : ReaderLaws order S r) (v : ℕ) where
  Coded-u8 : (n : ℕ) → n < 256 → Coded order S r laws v (write_u8 n) (r.read_u8) n
  unfolding write_u8
  Coded-u8 n b = (n ∷ [], Appends-fixed v (n ∷ []), λ s rest ev e. laws.reads_u8 s n rest e)

  Coded-commit_pos :
      (p : CommitPos)
      → FitsPos p
      → Coded order S r laws v (write_commit_pos order p) (read_commit_pos r) p
  unfolding write_commit_pos read_commit_pos
  Coded-commit_pos p (a, b) =
      Coded-two order S r laws v (write_u64 order (p.pos)) (write_u64 order (p.height)) (r.read_u64)
        (r.read_u64) (λ (x y : ℕ). record { pos = x; height = y }) (p.pos) (p.height)
        (Coded-u64 order S r laws v (p.pos) a) (Coded-u64 order S r laws v (p.height) b)

  pub Coded-list_wrapper :
      (l : ListWrapper) → FitsList l → Coded order S r laws v (write_list order l) (read_list r) l
  unfolding write_list read_list list_variant read_single read_multi_list
  Coded-list_wrapper (single pos) b =
      Coded-then order S r laws v (write_u8 0) (write_commit_pos order pos) (r.read_u8)
        (list_variant r) 0 (single pos) (Coded-u8 0 (omega arith))
        (Coded-one order S r laws v (write_commit_pos order pos) (read_commit_pos r) single pos
          (Coded-commit_pos pos b))
  Coded-list_wrapper (multi first last) (a, b) =
      Coded-then order S r laws v (write_u8 1) (write_u64 order first >>= λ _. write_u64 order last)
        (r.read_u8) (list_variant r) 1 (multi first last) (Coded-u8 1 (omega arith))
        (Coded-two order S r laws v (write_u64 order first) (write_u64 order last) (r.read_u64)
          (r.read_u64) multi first last (Coded-u64 order S r laws v first a)
          (Coded-u64 order S r laws v last b))

  pub Coded-list_entry :
      (l : ListEntry) → FitsEntry l → Coded order S r laws v (write_entry order l) (read_entry r) l
  unfolding write_entry read_entry entry_variant read_head read_tail read_middle
  Coded-list_entry (head pos next) (a, b) =
      Coded-then order S r laws v (write_u8 2)
        (write_commit_pos order pos >>= λ _. write_u64 order next) (r.read_u8) (entry_variant r) 2
        (head pos next) (Coded-u8 2 (omega arith))
        (Coded-two order S r laws v (write_commit_pos order pos) (write_u64 order next)
          (read_commit_pos r) (r.read_u64) head pos next (Coded-commit_pos pos a)
          (Coded-u64 order S r laws v next b))
  Coded-list_entry (tail pos prev) (a, b) =
      Coded-then order S r laws v (write_u8 3)
        (write_commit_pos order pos >>= λ _. write_u64 order prev) (r.read_u8) (entry_variant r) 3
        (tail pos prev) (Coded-u8 3 (omega arith))
        (Coded-two order S r laws v (write_commit_pos order pos) (write_u64 order prev)
          (read_commit_pos r) (r.read_u64) tail pos prev (Coded-commit_pos pos a)
          (Coded-u64 order S r laws v prev b))
  Coded-list_entry (middle pos next prev) (a, b, c) =
      Coded-then order S r laws v (write_u8 4)
        (write_commit_pos order pos >>= λ _. (write_u64 order next >>= λ _. write_u64 order prev))
        (r.read_u8) (entry_variant r) 4 (middle pos next prev) (Coded-u8 4 (omega arith))
        (Coded-three order S r laws v (write_commit_pos order pos) (write_u64 order next)
          (write_u64 order prev) (read_commit_pos r) (r.read_u64) (r.read_u64) middle pos next prev
          (Coded-commit_pos pos a) (Coded-u64 order S r laws v next b)
          (Coded-u64 order S r laws v prev c))

-- An entry with positions and heights below 2 ^ 64 is written without an error, and BinReader reads
-- the same entry from these bytes and leaves what follows them.
pub read_entry-write_entry :
    (order : ByteOrder) (v : ℕ) (entry : ListEntry) (rest : List ℕ)
    → FitsEntry entry
    → (bytes : List ℕ) × (write_entry order entry (sink_of v []) ≡ ok (tt, sink_of v bytes))
      × ((s' : BinReader) × (read_entry
              (reader order)
              (record { source = bytes ++ rest; version = v; deser_mode = full })
            ≡ ok (entry, s'))
          × (s'.source ≡ rest))
unfolding reader bin_laws
read_entry-write_entry order v entry rest h =
    let (bytes, written, read) =
      Coded-list_entry order BinReader (reader order) (bin_laws order) v entry h in
    let (s', es, er, ev) =
      read (record { source = bytes ++ rest; version = v; deser_mode = full }) rest refl refl in
    (bytes, written [], (s', es, er))
