-- ===== src/Chain/Examples.antt =====
-- chain/src/linked_list.rs and chain/src/txhashset/txhashset.rs: the theorems at short lists.
use grin.Prelude.{ℕ, ◌≡◌, ◌⊎◌, refl, arith, List, [], ◌∷◌, ◌++◌, true, ok, err, some, none}
use grin.Ser.BigEndian.{big_endian}
use grin.Ser.Source.{full}
use grin.Ser.BinReader.{BinReader, reader}
use grin.Ser.Coding.{sink_of}
use grin.Transaction.Kernel.{KernelFeatures}
use grin.Transaction.Types.{TxKernel}
use grin.Chain.ListIndex.{
  CommitPos, head, Batch, single, push_pos, pop_pos, pop_pos_back, rewind, peek_pos, rewind_loop,
}
use grin.Chain.Represents.{Stores, Agrees}
use grin.Chain.ListSpec.{
  Call, push, pop, pop_back, rewind_to, call_index, run_index, run_lists, empty_batch,
  run_index-run_lists,
}
use grin.Chain.KernelRules.{
  apply_kernel_rules, nrd_relative_height, IsSpaced, apply_kernel_rules_nrd,
}
use grin.Chain.ListCodec.{write_entry, read_entry}
use grin.Chain.ListRoundTrip.{read_entry-write_entry}

abbrev at : ℕ → ℕ → CommitPos
at p h = record { pos = p; height = h }

-- Three positions of one commitment, taken off both ends.
abbrev calls : List Call
calls =
    push 7 (at 1 10)
    ∷ push 7 (at 4 11)
    ∷ push 8 (at 5 11)
    ∷ push 7 (at 9 12)
    ∷ pop 7
    ∷ pop_back 7
    ∷ rewind_to 7 3
    ∷ pop 7
    ∷ []

run_index-run_lists_example : run_index calls empty_batch ≡ run_lists calls (λ commit. [])
run_index-run_lists_example = run_index-run_lists calls

abbrev nrd_kernel : TxKernel
nrd_kernel = record {
  features = KernelFeatures.no_recent_duplicate (record { bits = 9 }) (record { height = 5 });
  excess = 7;
  excess_sig = 3;
}

abbrev recorded : Batch
recorded = record { lists = λ commit. some (single (at 4 100)); entries = λ commit pos. none }

apply_kernel_rules_nrd_example :
    (IsSpaced (at 6 110) 5 (at 4 100 ∷ [])
      × ((after : Batch) × (apply_kernel_rules true nrd_kernel (at 6 110) recorded ≡ ok after)
          × Stores after 7 (at 6 110 ∷ at 4 100 ∷ [])
          × Agrees 7 recorded after))
    ⊎ ((¬ IsSpaced (at 6 110) 5 (at 4 100 ∷ []))
        × (apply_kernel_rules true nrd_kernel (at 6 110) recorded ≡ err nrd_relative_height))
apply_kernel_rules_nrd_example =
    apply_kernel_rules_nrd nrd_kernel (at 6 110) recorded (at 4 100 ∷ []) (refl, (tt, tt))
      (omega arith, tt) (record { bits = 9 }) (record { height = 5 }) refl

read_entry-write_entry_example :
    (bytes : List ℕ) × (write_entry big_endian (head (at 9 12) 4) (sink_of 2 [])
      ≡ ok (tt, sink_of 2 bytes))
    × ((s' : BinReader) × (read_entry
            (reader big_endian)
            (record { source = bytes ++ (1 ∷ []); version = 2; deser_mode = full })
          ≡ ok (head (at 9 12) 4, s'))
        × (s'.source ≡ 1 ∷ []))
read_entry-write_entry_example =
    read_entry-write_entry big_endian 2 (head (at 9 12) 4) (1 ∷ [])
      ((omega arith, omega arith), omega arith)

run_calls :
    run_index calls empty_batch
    ≡ ok (none ∷ none ∷ none ∷ none ∷ some (at 9 12) ∷ some (at 1 10) ∷ none ∷ none ∷ [])
unfolding run_index call_index push_pos pop_pos pop_pos_back rewind peek_pos rewind_loop
run_calls = refl
