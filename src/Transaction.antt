-- ===== src/Transaction.antt =====
-- core/src/core/transaction.rs: kernels, transaction bodies, and how transactions are combined.
pub mod Errors
pub mod Fee
pub mod Kernel
pub mod FeeBits
pub mod Types
pub mod Body
pub mod Checks
pub mod Validation
pub mod Builder
pub mod Building
pub mod BodyCodec
pub mod Elements
pub mod InputsRoundTrip
pub mod BodyRoundTrip
pub mod Stored
pub mod CutThrough
pub mod Swaps
pub mod Cutting
pub mod CutCounts
pub mod TxCodec
pub mod TxRoundTrip
pub mod Sums
pub mod Aggregate
pub mod AggregateCounts
pub mod CutExamples
pub mod Amounts
pub mod Examples
pub mod KernelCodec
pub mod KernelBytes
pub mod KernelReads
pub mod RoundTrip
