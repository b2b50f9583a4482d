-- ===== src/Consensus/Version.antt =====
-- core/src/consensus.rs: header_version and valid_header_version. A `HeaderVersion` is its u16.
use grin.Prelude.{ℕ, ◌+◌, ◌/◌, ◌%◌, ◌^◌, min, Bool, ltb, ◌==◌, if◌then◌else◌}
use grin.Global.Chain.{ChainTypes}
use grin.Consensus.Params.{
  hard_fork_interval, testing_hard_fork_interval, testnet_first_hard_fork, testnet_second_hard_fork,
  testnet_third_hard_fork, testnet_fourth_hard_fork,
}

-- `as u16` keeps the low 16 bits.
testing_version : ℕ → ℕ
testing_version height = min 5 ((1 + height / testing_hard_fork_interval) % 2 ^ 16)

unfoldable pub header_version : ChainTypes → ℕ → ℕ
unfolding testing_version
header_version ChainTypes.mainnet height = min 5 ((1 + height / hard_fork_interval) % 2 ^ 16)
header_version ChainTypes.automated_testing height = testing_version height
header_version ChainTypes.user_testing height = testing_version height
header_version ChainTypes.testnet height =
    if ltb height testnet_first_hard_fork
    then 1
    else if ltb height testnet_second_hard_fork
    then 2
    else if ltb height testnet_third_hard_fork
    then 3
    else if ltb height testnet_fourth_hard_fork
    then 4
    else 5

unfoldable pub valid_header_version : ChainTypes → ℕ → ℕ → Bool
valid_header_version chain height version = version == header_version chain height
