-- ===== src/Transaction/Examples.antt =====
-- core/src/core/transaction.rs: the theorems at concrete transactions.
use grin.Prelude.{
  inl, inr, replicate, ℕ, ◌+◌, ◌^◌, ◌≤◌, ◌<◌, ◌≡◌, ◌↔◌, ◌⊎◌, refl, arith, List, [], ◌∷◌, ◌++◌, true,
  false, All, min, u64_max, ◌/◌, ok, err,
}
use grin.Prelude.Sorting.{IsDistinct}
use grin.Global.Chain.{ChainTypes}
use grin.Ser.Types.{full}
use grin.Ser.BigEndian.{big_endian, digits}
use grin.Ser.Writer.{Writer, write_u8, write_u64, write_u16, write_fixed_bytes}
use grin.Ser.BinReader.{BinReader, reader}
use grin.Ser.BinLaws.{bin_laws}
use grin.Ser.Types.{is_hash_mode, corrupted_data}
use grin.Transaction.Errors.{invalid_fee_fields, cut_through}
use grin.Transaction.Fee.{FeeFields, fee, fee_shift, new, is_zero}
use grin.Transaction.FeeBits.{new-extracts}
use grin.Transaction.Kernel.{is_nrd, KernelFeatures, no_recent_duplicate, as_u8}
use grin.Transaction.KernelCodec.{write, read, write_v2, write_fee, write_height}
use grin.Transaction.KernelBytes.{IsValid}
use grin.Transaction.RoundTrip.{read-write}
use grin.Transaction.Types.{
  TransactionBody, Input, Output, TxKernel, commit_only, Hashes, OutputFeatures, inputs_committed,
  outputs_committed,
}
use grin.Transaction.Body.{
  kernel_fees, body_fee_shift, shifted_fee, aggregate_fee_fields, as_transaction, verify_weight,
  nrd_excess, verify_no_nrd_duplicates, verify_cut_through, validate_read,
}
use grin.Transaction.Validation.{IsLight, IsOrdered, validate_read_iff}
use grin.Ser.Coding.{sink_of}
use grin.Prelude.Sorting.{sort, insert, dedup, any_adjacent}
use grin.Global.Limits.{max_tx_weight}
use grin.Transaction.Kernel.{is_coinbase}
use grin.Transaction.Types.{is_coinbase_output, to_commits}
use grin.Transaction.Body.{
  validate_read_tx, verify_features, verify_output_features, verify_kernel_features, max_weight_for,
  weight, weight_by_iok, inputs_outputs_committed,
}
use grin.Transaction.TxCodec.{Transaction, write_transaction, read_transaction}
use grin.Transaction.TxRoundTrip.{read_transaction-write_transaction, read_transaction_refuses}
use grin.Transaction.Builder.{with_input, with_output, with_kernel}
use grin.Transaction.Building.{with_elements-verify_sorted}
use grin.Global.Chain.{max_block_weight}
use grin.Transaction.Types.{inputs_len}
use grin.Transaction.Body.{verify_sorted, verify_sorted_and_unique, input_hashes, to_error}
use grin.Transaction.BodyCodec.{write_body, read_body}
use grin.Transaction.BodyRoundTrip.{IsReadable}
use grin.Transaction.InputsRoundTrip.{IsInputs, IsOutput, IsKernel}
use grin.Transaction.Stored.{read_body-write_body}
use grin.Transaction.Amounts.{fee_sum, aggregate_fee_fields_sum, shifted_fee_bounds}

-- An NRD kernel, written in the new version and read from a longer stream.
abbrev nrd : KernelFeatures
nrd = no_recent_duplicate (record { bits = 500 }) (record { height = 1440 })

abbrev empty_sink : Writer
empty_sink = record { sink = []; version = 1000; mode = full }

abbrev nrd_bytes : List ℕ
nrd_bytes = 3 ∷ 0 ∷ 0 ∷ 0 ∷ 0 ∷ 0 ∷ 0 ∷ 1 ∷ 244 ∷ 5 ∷ 160 ∷ []

abbrev source : BinReader
source = record {
  source = nrd_bytes ++ (42 ∷ []);
  version = 1000;
  deser_mode = grin.Ser.Source.full;
}

read-write_example :
    (s' : BinReader) × (read (reader big_endian) true source ≡ ok (nrd, s'))
    × ((bin_laws big_endian).remaining s' ≡ 42 ∷ [])
    × ((reader big_endian).protocol_version s' ≡ (reader big_endian).protocol_version source)
unfolding IsValid reader write write_v2 write_fee write_height write_u8 write_u16 write_u64
    write_fixed_bytes as_u8 is_hash_mode big_endian digits bin_laws
read-write_example =
    read-write big_endian BinReader (reader big_endian) (bin_laws big_endian) true nrd empty_sink
      source (42 ∷ []) (omega arith, omega arith, omega arith) (inr refl) refl refl refl
      (record { sink = nrd_bytes; version = 1000; mode = full }) refl refl

new-extracts_example :
    ((0 < 1000)
      × (1000 < 2 ^ 40)
      × (3 < 16)
      × ((f : FeeFields) × (new 3 1000 ≡ ok f)
          × (fee f ≡ 1000)
          × (fee_shift f ≡ 3)
          × (is_zero f ≡ false)))
    ⊎ ((Path ℕ 1000 0 ⊎ ((2 ^ 40 ≤ 1000) ⊎ (16 ≤ 3))) × (new 3 1000 ≡ err invalid_fee_fields))
new-extracts_example = new-extracts 3 1000

-- Hashes that are the numbers themselves.
abbrev plain_hashes : Hashes
plain_hashes = record {
  commit_hash = λ c. c.commit;
  input_hash = λ i. i.commit;
  output_hash = λ o. o.commit;
  kernel_hash = λ k. k.excess;
}

-- One input, two outputs, a plain kernel and an NRD kernel.
abbrev payment : TransactionBody
payment = record {
  inputs = commit_only (record { commit = 11 } ∷ []);
  outputs =
      record {
        identifier = record { features = OutputFeatures.plain; commit = 20 };
        proof = replicate 675 1;
      }
      ∷ record {
        identifier = record { features = OutputFeatures.plain; commit = 21 };
        proof = replicate 675 2;
      }
      ∷ [];
  kernels =
      record {
        features = KernelFeatures.plain (record { bits = 2 ^ 40 + 70 });
        excess = 30;
        excess_sig = 3;
      }
      ∷ record { features = nrd; excess = 31; excess_sig = 4 }
      ∷ [];
}

validate_read_iff_example :
    (validate_read ChainTypes.mainnet true plain_hashes as_transaction payment ≡ ok tt) ↔ (
      IsLight ChainTypes.mainnet as_transaction payment
      × (IsDistinct (nrd_excess (payment.kernels))
          × (IsOrdered plain_hashes payment
              × IsDistinct (inputs_committed plain_hashes payment ++ outputs_committed payment))))
validate_read_iff_example = validate_read_iff ChainTypes.mainnet plain_hashes as_transaction payment

aggregate_fee_fields_sum_example :
    ((0 < fee_sum payment)
      × (fee_sum payment < 2 ^ 40)
      × ((f : FeeFields) × (aggregate_fee_fields payment ≡ ok f)
          × (fee f ≡ fee_sum payment)
          × (fee_shift f ≡ body_fee_shift payment)))
    ⊎ (((fee_sum payment ≡ 0) ⊎ (2 ^ 40 ≤ fee_sum payment))
        × (aggregate_fee_fields payment ≡ err invalid_fee_fields))
aggregate_fee_fields_sum_example = aggregate_fee_fields_sum payment

shifted_fee_bounds_example :
    (body_fee_shift payment ≤ 15)
    × (shifted_fee payment ≡ min (fee_sum payment) u64_max / 2 ^ body_fee_shift payment)
    × All (λ f. fee_shift f ≤ body_fee_shift payment) (kernel_fees (payment.kernels))
shifted_fee_bounds_example = shifted_fee_bounds payment

payment-IsReadable : IsReadable ChainTypes.mainnet true plain_hashes 1000 payment
unfolding IsInputs IsOutput IsKernel IsValid is_nrd verify_sorted verify_sorted_and_unique
    input_hashes to_error max_block_weight inputs_len
payment-IsReadable = record {
  inputs_fit = (omega arith, (omega arith, tt));
  outputs_fit = ((omega arith, refl), ((omega arith, refl), tt));
  kernels_fit = (
    (omega arith, inl refl, omega arith, omega arith),
    (((omega arith, omega arith, omega arith), inr refl, omega arith, omega arith), tt),
  );
  light = omega arith;
  sorted = refl;
}

read_body-write_body_example :
    (bytes : List ℕ) × (write_body big_endian plain_hashes payment (sink_of 1000 [])
      ≡ ok (tt, sink_of 1000 bytes))
    × ((s' : BinReader) × (read_body
            (reader big_endian)
            ChainTypes.mainnet
            true
            plain_hashes
            (record { source = bytes ++ []; version = 1000; deser_mode = grin.Ser.Source.full })
          ≡ ok (payment, s'))
        × (s'.source ≡ []))
read_body-write_body_example =
    read_body-write_body big_endian ChainTypes.mainnet true plain_hashes 1000 payment []
      payment-IsReadable

abbrev new_input : Input
new_input = record { features = OutputFeatures.plain; commit = 5 }

abbrev new_output : Output
new_output = record {
  identifier = record { features = OutputFeatures.plain; commit = 19 };
  proof = replicate 675 3;
}

abbrev new_kernel : TxKernel
new_kernel = record { features = nrd; excess = 29; excess_sig = 5 }

with_elements-verify_sorted_example :
    (verify_sorted plain_hashes (with_input plain_hashes new_input payment) ≡ ok tt)
    × (verify_sorted plain_hashes (with_output plain_hashes new_output payment) ≡ ok tt)
    × (verify_sorted plain_hashes (with_kernel plain_hashes new_kernel payment) ≡ ok tt)
unfolding verify_sorted verify_sorted_and_unique input_hashes to_error
with_elements-verify_sorted_example =
    with_elements-verify_sorted plain_hashes payment new_input new_output new_kernel refl

payment-passes : validate_read_tx ChainTypes.mainnet true plain_hashes payment ≡ ok tt
unfolding validate_read_tx validate_read verify_weight weight weight_by_iok max_weight_for
    max_tx_weight max_block_weight inputs_len verify_no_nrd_duplicates nrd_excess verify_sorted
    verify_sorted_and_unique input_hashes to_error verify_cut_through inputs_outputs_committed
    inputs_committed outputs_committed to_commits verify_features verify_output_features
    verify_kernel_features sort insert dedup any_adjacent is_nrd is_coinbase is_coinbase_output
payment-passes = refl

abbrev payment_tx : Transaction
payment_tx = record { offset = 77; body = payment }

read_transaction-write_transaction_example :
    (bytes : List ℕ) × (write_transaction big_endian plain_hashes payment_tx (sink_of 1000 [])
      ≡ ok (tt, sink_of 1000 bytes))
    × ((s' : BinReader) × (read_transaction
            (reader big_endian)
            ChainTypes.mainnet
            true
            plain_hashes
            (record { source = bytes ++ []; version = 1000; deser_mode = grin.Ser.Source.full })
          ≡ ok (payment_tx, s'))
        × (s'.source ≡ []))
read_transaction-write_transaction_example =
    read_transaction-write_transaction big_endian ChainTypes.mainnet true plain_hashes 1000
      payment_tx [] (omega arith) payment-IsReadable payment-passes

-- The bytes are those that write_transaction writes.
-- The output spends the input of the same transaction.
abbrev spent_at_once : TransactionBody
spent_at_once = record payment { inputs = commit_only (record { commit = 20 } ∷ []) }

spent_at_once-IsReadable : IsReadable ChainTypes.mainnet true plain_hashes 1000 spent_at_once
unfolding IsInputs IsOutput IsKernel IsValid is_nrd verify_sorted verify_sorted_and_unique
    input_hashes to_error max_block_weight inputs_len
spent_at_once-IsReadable = record {
  inputs_fit = (omega arith, (omega arith, tt));
  outputs_fit = ((omega arith, refl), ((omega arith, refl), tt));
  kernels_fit = (
    (omega arith, inl refl, omega arith, omega arith),
    (((omega arith, omega arith, omega arith), inr refl, omega arith, omega arith), tt),
  );
  light = omega arith;
  sorted = refl;
}

spent_at_once_fails :
    validate_read_tx ChainTypes.mainnet true plain_hashes spent_at_once ≡ err cut_through
unfolding validate_read_tx validate_read verify_weight weight weight_by_iok max_weight_for
    max_tx_weight max_block_weight inputs_len verify_no_nrd_duplicates nrd_excess verify_sorted
    verify_sorted_and_unique input_hashes to_error verify_cut_through inputs_outputs_committed
    inputs_committed outputs_committed to_commits verify_features verify_output_features
    verify_kernel_features sort insert dedup any_adjacent is_nrd is_coinbase is_coinbase_output
spent_at_once_fails = refl

read_transaction_refuses_example :
    (bytes : List ℕ) × (write_transaction big_endian plain_hashes
        (record { offset = 77; body = spent_at_once })
        (sink_of 1000 [])
      ≡ ok (tt, sink_of 1000 bytes))
    × (read_transaction
          (reader big_endian)
          ChainTypes.mainnet
          true
          plain_hashes
          (record { source = bytes ++ []; version = 1000; deser_mode = grin.Ser.Source.full })
        ≡ err corrupted_data)
read_transaction_refuses_example =
    read_transaction_refuses big_endian ChainTypes.mainnet true plain_hashes 1000
      (record { offset = 77; body = spent_at_once }) cut_through [] (omega arith)
      spent_at_once-IsReadable spent_at_once_fails
