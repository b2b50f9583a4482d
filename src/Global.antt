-- ===== src/Global.antt =====
-- core/src/global.rs: the parameters that depend on the type of chain. The thread-local and global
-- cells that hold the chain type, the fee base and the feature flags are written once, before the
-- code below runs, so what a getter of theirs returns is an argument here.
pub mod Chain
pub mod Limits
pub mod History
pub mod Window
pub mod Examples
