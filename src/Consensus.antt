-- ===== src/Consensus.antt =====
-- core/src/consensus.rs: the constants and short rules on which all nodes agree.
pub mod Params
pub mod Version
pub mod Weight
pub mod Difficulty
pub mod Retarget
pub mod Schedule
pub mod Examples
