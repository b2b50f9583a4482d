-- ===== src/Global/Examples.antt =====
-- core/src/global.rs: the window of a chain with one header.
use grin.Prelude.{◌≡◌, some, none, false, List, [], ◌∷◌, length}
use grin.Global.Chain.{ChainTypes}
use grin.Global.History.{HeaderDifficultyInfo, difficulty_data_to_vector}
use grin.Global.Window.{length-difficulty_data_to_vector}

abbrev genesis : HeaderDifficultyInfo
genesis = record {
  hash = none;
  timestamp = 1_000_000;
  difficulty = 5000;
  secondary_scaling = 1856;
  is_secondary = false;
}

length-difficulty_data_to_vector_example :
    (window : List HeaderDifficultyInfo) × (difficulty_data_to_vector ChainTypes.mainnet
        (genesis ∷ [])
      ≡ some window)
    × (length window ≡ 61)
length-difficulty_data_to_vector_example =
    length-difficulty_data_to_vector ChainTypes.mainnet genesis []
