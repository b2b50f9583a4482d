-- ===== src/Chain.antt =====
-- chain/src: the indexes that the chain keeps beside its blocks.
pub mod DifficultyIter
pub mod Pipe
pub mod Guards
pub mod HeaderRules
pub mod HeaderChain
pub mod PipeExamples
pub mod ListIndex
pub mod Represents
pub mod Pushing
pub mod Popping
pub mod PoppingBack
pub mod ListSpec
pub mod KernelRules
pub mod Orphans
pub mod OrphanIndex
pub mod OrphanBound
pub mod OrphanPool
pub mod OrphanExamples
pub mod ListCodec
pub mod ListRoundTrip
pub mod Examples
