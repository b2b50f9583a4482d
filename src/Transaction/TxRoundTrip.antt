-- ===== src/Transaction/TxRoundTrip.antt =====
-- core/src/core/transaction.rs: transactions through BinWriter and BinReader.
use grin.Prelude.{ℕ, ◌^◌, ◌<◌, ◌≡◌, refl, arith, List, [], ◌++◌, Bool, ok, err}
use mathlib.Core.List.{append_assoc}
use grin.Ser.Types.{ByteOrder, corrupted_data}
use grin.Ser.Source.{full}
use grin.Ser.Stream.{Stream, ◌>>=◌}
use grin.Ser.BinReader.{BinReader, reader}
use grin.Ser.BinLaws.{bin_laws}
use grin.Ser.Reader.{Reader}
use grin.Ser.Laws.{ReaderLaws}
use grin.Ser.BigEndian.{digits, length-digits, number-digits}
use grin.Ser.Coding.{
  sink_of, Appends-fixed, Appends-then, reads_pure, Coded, Coded-then, Coded-final,
}
use grin.Ser.FieldCoding.{reads_fixed}
use grin.Global.Chain.{ChainTypes}
use grin.Transaction.Errors.{Error}
use grin.Transaction.Types.{TransactionBody, Hashes}
use grin.Transaction.Body.{validate_read_tx}
use grin.Transaction.BodyCodec.{write_body, read_body}
use grin.Transaction.BodyRoundTrip.{IsReadable, Coded-body}
use grin.Transaction.TxCodec.{
  Transaction, write_blinding_factor, write_transaction, read_blinding_factor, validated,
  read_transaction,
}

module _ (order : ByteOrder) (S : Type 0) (r : Reader S) (laws : ReaderLaws order S r) (v : ℕ)
    (hashes : Hashes) (chain : ChainTypes) (nrd_enabled : Bool) where
  Coded-blinding_factor :
      (b : ℕ)
      → b < 256 ^ 32
      → Coded order S r laws v (write_blinding_factor b) (read_blinding_factor r) b
  unfolding write_blinding_factor read_blinding_factor
  Coded-blinding_factor b small = (
    digits 32 b,
    Appends-fixed v (digits 32 b),
    λ s rest ev e.
        let (s', es, er, ev') =
          reads_fixed order S r laws v 32 (digits 32 b) (length-digits 32 b) (omega arith) s rest ev
            e in
        (s', rw (es, number-digits 32 b small) refl, er, ev'),
  )

  abbrev build : ℕ → TransactionBody → Stream S Transaction
  build offset body =
      validated r (validate_read_tx chain nrd_enabled hashes body)
        (record { offset = offset; body = body })

  pub Coded-transaction :
      (tx : Transaction)
      → tx.offset < 256 ^ 32
      → IsReadable chain nrd_enabled hashes v (tx.body)
      → validate_read_tx chain nrd_enabled hashes (tx.body) ≡ ok tt
      → Coded order S r laws v
          (write_transaction order hashes tx)
          (read_transaction r chain nrd_enabled hashes)
          tx
  unfolding write_transaction read_transaction validated
  Coded-transaction tx small readable valid =
      Coded-then order S r laws v (write_blinding_factor (tx.offset))
        (write_body order hashes (tx.body)) (read_blinding_factor r)
        (λ offset. (read_body r chain nrd_enabled hashes >>= build offset)) (tx.offset) tx
        (Coded-blinding_factor (tx.offset) small)
        (Coded-final order S r laws v (write_body order hashes (tx.body))
          (read_body r chain nrd_enabled hashes) (build (tx.offset)) (tx.body) tx
          (Coded-body order S r laws v hashes chain nrd_enabled (tx.body) readable)
          (rw valid (reads_pure order S r laws v tx)))

-- A transaction whose offset has 32 bytes, whose body can be read and which passes validate_read is
-- written without an error, and BinReader reads the same transaction from these bytes and leaves
-- what follows them.
pub read_transaction-write_transaction :
    (order : ByteOrder) (chain : ChainTypes) (nrd_enabled : Bool) (hashes : Hashes) (v : ℕ)
    (tx : Transaction) (rest : List ℕ)
    → tx.offset < 256 ^ 32
    → IsReadable chain nrd_enabled hashes v (tx.body)
    → validate_read_tx chain nrd_enabled hashes (tx.body) ≡ ok tt
    → (bytes : List ℕ) × (write_transaction order hashes tx (sink_of v [])
        ≡ ok (tt, sink_of v bytes))
      × ((s' : BinReader) × (read_transaction
              (reader order)
              chain
              nrd_enabled
              hashes
              (record { source = bytes ++ rest; version = v; deser_mode = full })
            ≡ ok (tx, s'))
          × (s'.source ≡ rest))
unfolding reader bin_laws
read_transaction-write_transaction order chain nrd_enabled hashes v tx rest small readable valid =
    let (bytes, written, read) =
      Coded-transaction order BinReader (reader order) (bin_laws order) v hashes chain nrd_enabled
        tx small readable valid in
    let (s', es, er, ev) =
      read (record { source = bytes ++ rest; version = v; deser_mode = full }) rest refl refl in
    (bytes, written [], (s', es, er))

-- A transaction whose offset has 32 bytes and whose body can be read, but which fails validate_read
-- with any error, is written without an error, and BinReader refuses these bytes with CorruptedData,
-- whatever follows them.
pub read_transaction_refuses :
    (order : ByteOrder) (chain : ChainTypes) (nrd_enabled : Bool) (hashes : Hashes) (v : ℕ)
    (tx : Transaction) (e : Error) (rest : List ℕ)
    → tx.offset < 256 ^ 32
    → IsReadable chain nrd_enabled hashes v (tx.body)
    → validate_read_tx chain nrd_enabled hashes (tx.body) ≡ err e
    → (bytes : List ℕ) × (write_transaction order hashes tx (sink_of v [])
        ≡ ok (tt, sink_of v bytes))
      × (read_transaction
            (reader order)
            chain
            nrd_enabled
            hashes
            (record { source = bytes ++ rest; version = v; deser_mode = full })
          ≡ err corrupted_data)
unfolding reader bin_laws write_transaction read_transaction validated
read_transaction_refuses order chain nrd_enabled hashes v tx e rest small readable invalid =
    let (front, wrote, read) =
      Coded-blinding_factor order BinReader (reader order) (bin_laws order) v hashes chain
        nrd_enabled (tx.offset) small in
    let (back, wrote', read') =
      Coded-body order BinReader (reader order) (bin_laws order) v hashes chain nrd_enabled
        (tx.body) readable in
    let start : BinReader = record {
      source = (front ++ back) ++ rest;
      version = v;
      deser_mode = full;
    } in
    let (s1, got, left, same) = read start (back ++ rest) refl (append_assoc front back rest) in
    let (s2, got', left', same') = read' s1 rest same left in
    (
      front ++ back,
      Appends-then v (write_blinding_factor (tx.offset)) (write_body order hashes (tx.body)) front
          back wrote wrote' [],
      rw (got, got', invalid) refl,
    )
