-- ===== src/Pmmr.antt =====
-- core/src/core/pmmr/pmmr.rs: Merkle mountain ranges.
pub mod Index
pub mod Ones
pub mod Peaks
pub mod Nodes
pub mod VecBackend
pub mod Range
pub mod Reference
pub mod Push
pub mod Tops
pub mod Root
pub mod Rewind
pub mod Validate
pub mod Consistent
pub mod Split
pub mod Climb
pub mod Bagging
pub mod Reads
pub mod Inside
pub mod Proving
pub mod PeakPath
pub mod Complete
pub mod RangeExamples
pub mod Leaves
pub mod Digits
pub mod Siblings
pub mod Family
pub mod MerkleProof
pub mod Binding
pub mod MerkleCodec
pub mod ProofRoundTrip
pub mod Examples
