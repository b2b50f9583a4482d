-- ===== src/Pow.antt =====
-- core/src/pow: the hash of the graphs, and the checks of cycles in them.
pub mod SipHash
pub mod Params
pub mod Cuckaroom
pub mod Cuckarood
pub mod RoodLoop
pub mod RoodCycle
pub mod RoodProof
pub mod RoodVectors
pub mod RoomLists
pub mod RoomCycle
pub mod RoomProof
pub mod Difficulty
pub mod Targets
pub mod Vectors
pub mod Examples
