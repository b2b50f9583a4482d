-- ===== src/Chain/PipeExamples.antt =====
-- chain/src/pipe.rs: three headers of the main chain, one minute apart.
use grin.Prelude.{
  ℕ, ◌+◌, ◌*◌, ◌≤◌, ◌≡◌, ◌⊎◌, ◌↔◌, refl, arith, Option, none, some, [], true, false, ok, ◌==◌,
  if◌then◌else◌,
}
use grin.Global.Chain.{ChainTypes, max_block_weight}
use grin.Global.History.{HeaderDifficultyInfo}
use grin.Block.Header.{
  BlockHeader, default_header, total_difficulty, output_mmr_count, kernel_mmr_count,
}
use grin.Chain.DifficultyIter.{get_previous_header}
use grin.Chain.Pipe.{BlockContext, validate_header, next_header_info}
use grin.Prelude.{leading_zeros, bit_length_from}
use grin.Pmmr.Index.{n_leaves, peak_map_height, peak_map_loop}
use grin.Consensus.Version.{header_version, valid_header_version}
use grin.Consensus.Difficulty.{next_difficulty, next_wtema_difficulty, from_num}
use grin.Consensus.Weight.{graph_weight}
use grin.Global.Chain.{base_edge_bits, min_edge_bits}
use grin.Global.Limits.{min_wtema_graph_weight}
use grin.Global.History.{from_diff_scaling}
use grin.Transaction.Body.{weight_by_iok}
use grin.Pow.Difficulty.{to_difficulty, scaled_difficulty}
use grin.Chain.DifficultyIter.{items, next}
use grin.Chain.Pipe.{
  validate_after, prev_header_store, check_numbers, check_difficulty, check_work, check_next,
  validate_pow_only,
}
use grin.Chain.HeaderRules.{Follows, Works, validate_header_iff}
use grin.Chain.HeaderChain.{Extends, start_of, extend, Extends-numbers}

-- The height, the hash of the header before, the sizes of both ranges and the total difficulty.
abbrev header_of : ℕ → ℕ → ℕ → ℕ → BlockHeader
header_of i before size total = record (default_header ChainTypes.mainnet) {
  version = 5;
  height = 1_048_400 + i;
  prev_hash = before;
  timestamp = 1000 + 60 * i;
  output_mmr_size = size;
  kernel_mmr_size = size;
  pow = record {
    total_difficulty = total;
    secondary_scaling = 1;
    nonce = 0;
    proof = record { edge_bits = 32; nonces = [] };
  };
}

abbrev oldest : BlockHeader
oldest = header_of 0 99 1 20000

abbrev older : BlockHeader
older = header_of 1 1000 3 40000

abbrev newest : BlockHeader
newest = header_of 2 1060 4 60000

-- The hash of a header is its time here.
abbrev stored : ℕ → Option BlockHeader
stored h = if h == 1000 then some oldest else if h == 1060 then some older else none

abbrev context : BlockContext
context = record {
  chain = ChainTypes.mainnet;
  skip_pow = false;
  hash = λ header. header.timestamp;
  hash_to_u64 = λ proof. 1;
  pow_verifier = λ header. true;
  header_allowed = λ header. ok tt;
  store = record { get_block_header = stored; block_exists = λ h. false };
}

abbrev asked : HeaderDifficultyInfo
asked = record {
  hash = none;
  timestamp = 1;
  difficulty = 20000;
  secondary_scaling = 0;
  is_secondary = true;
}

validate_header_iff_example : (validate_header context newest ≡ some (ok tt)) ↔ (
    (context.header_allowed newest ≡ ok tt)
    × ((prev : BlockHeader) × (get_previous_header (context.store) newest ≡ some prev)
        × (Follows context prev newest × ((context.skip_pow ≡ true) ⊎ Works context prev newest))))
validate_header_iff_example = validate_header_iff context newest

next_is_asked : next_header_info context older newest ≡ some asked
unfolding next_header_info next_difficulty header_version next_wtema_difficulty items next
    min_wtema_graph_weight from_num from_diff_scaling
next_is_asked = refl

newest_accepted : validate_header context newest ≡ some (ok tt)
unfolding validate_header validate_after prev_header_store check_numbers check_difficulty check_work
    check_next validate_pow_only valid_header_version header_version output_mmr_count
    kernel_mmr_count n_leaves peak_map_height peak_map_loop leading_zeros bit_length_from
    weight_by_iok max_block_weight to_difficulty scaled_difficulty graph_weight base_edge_bits
    min_edge_bits next_header_info next_difficulty next_wtema_difficulty items next
    min_wtema_graph_weight from_num from_diff_scaling
newest_accepted = refl

newest-Extends : Extends context older 1 20000 newest
newest-Extends =
    extend 0 0 older newest asked start_of refl next_is_asked (omega arith) newest_accepted

Extends-numbers_example :
    (newest.height ≡ older.height + 1)
    × (total_difficulty newest ≡ total_difficulty older + 20000)
    × (1 ≤ 20000)
    × (older.timestamp + 1 ≤ newest.timestamp)
    × (output_mmr_count older + 1 ≤ output_mmr_count newest)
    × (kernel_mmr_count older + 1 ≤ kernel_mmr_count newest)
Extends-numbers_example = Extends-numbers context older refl (omega arith) newest-Extends
