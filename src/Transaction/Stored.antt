-- ===== src/Transaction/Stored.antt =====
-- core/src/core/transaction.rs: bodies through BinWriter and BinReader.
use grin.Prelude.{ℕ, ◌≡◌, refl, List, [], ◌++◌, Bool, ok}
use grin.Ser.Types.{ByteOrder}
use grin.Ser.Source.{full}
use grin.Ser.BinReader.{BinReader, reader}
use grin.Ser.BinLaws.{bin_laws}
use grin.Ser.Coding.{sink_of}
use grin.Global.Chain.{ChainTypes}
use grin.Transaction.Types.{TransactionBody, Hashes}
use grin.Transaction.BodyCodec.{write_body, read_body}
use grin.Transaction.BodyRoundTrip.{IsReadable, Coded-body}

-- A body whose fields fit the format and the version, within the weight of a block and in order, is
-- written without an error, and BinReader reads the same body from these bytes and leaves what
-- follows them.
pub read_body-write_body :
    (order : ByteOrder) (chain : ChainTypes) (nrd_enabled : Bool) (hashes : Hashes) (v : ℕ)
    (body : TransactionBody) (rest : List ℕ)
    → IsReadable chain nrd_enabled hashes v body
    → (bytes : List ℕ) × (write_body order hashes body (sink_of v []) ≡ ok (tt, sink_of v bytes))
      × ((s' : BinReader) × (read_body
              (reader order)
              chain
              nrd_enabled
              hashes
              (record { source = bytes ++ rest; version = v; deser_mode = full })
            ≡ ok (body, s'))
          × (s'.source ≡ rest))
unfolding reader bin_laws
read_body-write_body order chain nrd_enabled hashes v body rest h =
    let (bytes, written, read) =
      Coded-body order BinReader (reader order) (bin_laws order) v hashes chain nrd_enabled body
        h in
    let (s', es, er, ev) =
      read (record { source = bytes ++ rest; version = v; deser_mode = full }) rest refl refl in
    (bytes, written [], (s', es, er))
