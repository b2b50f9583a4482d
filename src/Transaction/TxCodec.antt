-- ===== src/Transaction/TxCodec.antt =====
-- core/src/core/transaction.rs: the transaction around a body, and its binary format.
use grin.Prelude.{ℕ, Bool, Result, ok, err}
use grin.Ser.Types.{ByteOrder, corrupted_data}
use grin.Ser.Stream.{Stream, pure, fail, ◌>>=◌}
use grin.Ser.BigEndian.{digits, number_from}
use grin.Ser.Writer.{Writer, write_fixed_bytes}
use grin.Ser.Reader.{Reader}
use grin.Global.Chain.{ChainTypes}
use grin.Transaction.Errors.{Error as TransactionError}
use grin.Transaction.Types.{TransactionBody, Hashes}
use grin.Transaction.Body.{validate_read_tx}
use grin.Transaction.BodyCodec.{write_body, read_body}

pub record Transaction : Type 0 where
  pub offset : ℕ
  pub body : TransactionBody

-- A blinding factor is 32 bytes, here a number of 256 bits.
unfoldable pub write_blinding_factor : ℕ → Stream Writer (Unit {0})
write_blinding_factor factor = write_fixed_bytes (digits 32 factor)

unfoldable pub write_transaction : ByteOrder → Hashes → Transaction → Stream Writer (Unit {0})
write_transaction order hashes tx = do
  _ ← write_blinding_factor (tx.offset)
  write_body order hashes (tx.body)

module _ {S : Type 0} (r : Reader S) where
  unfoldable pub read_blinding_factor : Stream S ℕ
  read_blinding_factor = do bytes ← r.read_fixed_bytes 32; pure (number_from 0 bytes)

  -- `validate_read().map_err(|_| CorruptedData)?` and the transaction.
  unfoldable pub validated : Result TransactionError (Unit {0}) → Transaction → Stream S Transaction
  validated (ok u) tx = pure tx
  validated (err e) tx = fail corrupted_data

  unfoldable pub read_transaction : ChainTypes → Bool → Hashes → Stream S Transaction
  read_transaction chain nrd_enabled hashes = do
    offset ← read_blinding_factor
    body ← read_body r chain nrd_enabled hashes
    let tx : Transaction = record { offset = offset; body = body }
    validated (validate_read_tx chain nrd_enabled hashes body) tx
