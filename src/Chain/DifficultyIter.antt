-- ===== src/Chain/DifficultyIter.antt =====
-- chain/src/store.rs: DifficultyIter, the past headers from which the next difficulty is computed. The
-- store is a map from the hash of a header to the header; reading one succeeds where it is there.
use grin.Prelude.{ℕ, zero, suc, Option, none, some, List, [], ◌∷◌, Bool, sub64}
use grin.Prelude.Panic.{◌>>=◌}
use grin.Global.History.{HeaderDifficultyInfo}
use grin.Pow.Difficulty.{is_secondary}
use grin.Block.Header.{BlockHeader, total_difficulty}

-- Headers by hash, and the hashes of the blocks that are there.
pub record Store : Type 0 where
  pub get_block_header : ℕ → Option BlockHeader
  pub block_exists : ℕ → Bool

abbrev pub get_previous_header : Store → BlockHeader → Option BlockHeader
get_previous_header store header = store.get_block_header (header.prev_hash)

-- A header that is read without the nonces of its proof.
abbrev pub skip_proof : BlockHeader → BlockHeader
skip_proof header = record header {
  pow = record (header.pow) { proof = record (header.pow.proof) { nonces = [] } };
}

abbrev pub get_block_header_skip_proof : Store → ℕ → Option BlockHeader
get_block_header_skip_proof store h =
    store.get_block_header h >>= λ header. some (skip_proof header)

pub record DifficultyIter : Type 0 where
  pub start : ℕ
  pub header : Option BlockHeader
  pub prev_header : Option BlockHeader
  pub prev_header_hash : Option ℕ

abbrev pub from_batch : ℕ → DifficultyIter
from_batch start = record {
  start = start;
  header = none;
  prev_header = none;
  prev_header_hash = none;
}

abbrev pub difficulty_before : Option BlockHeader → ℕ
difficulty_before none = 0
difficulty_before (some prev) = total_difficulty prev

abbrev pub current : Store → DifficultyIter → Option BlockHeader × Option ℕ
current store it = elim (it.header) [
  | none ↦ (get_block_header_skip_proof store (it.start), some (it.start))
  | some header ↦ (it.prev_header, it.prev_header_hash)
]

abbrev pub info_of : Option ℕ → Option BlockHeader → BlockHeader → HeaderDifficultyInfo
info_of hash prev header = record {
  hash = hash;
  timestamp = header.timestamp;
  difficulty = sub64 (total_difficulty header) (difficulty_before prev);
  secondary_scaling = header.pow.secondary_scaling;
  is_secondary = is_secondary (header.pow);
}

-- The item, and the iterator that goes on.
unfoldable pub next : Store → DifficultyIter → Option (HeaderDifficultyInfo × DifficultyIter)
next store it =
    let (cur_header, cur_header_hash) = current store it in
    elim cur_header [
      | none ↦ none
      | some header ↦
          let prev = get_block_header_skip_proof store (header.prev_hash) in
          some (
            info_of cur_header_hash prev header,
            record {
              start = it.start;
              header = some header;
              prev_header = prev;
              prev_header_hash = some (header.prev_hash);
            },
          )
    ]

-- The first items, at most `count` of them.
unfoldable pub items : Store → ℕ → DifficultyIter → List HeaderDifficultyInfo
items store zero it = []
items store (suc count) it = elim (next store it) [
  | none ↦ []
  | some (info, rest) ↦ info ∷ items store count rest
]
