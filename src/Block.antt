-- ===== src/Block.antt =====
-- core/src/core/block.rs: headers and blocks.
pub mod Header
pub mod Checks
pub mod Validation
pub mod Examples
