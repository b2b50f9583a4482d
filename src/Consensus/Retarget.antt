-- ===== src/Consensus/Retarget.antt =====
-- core/src/consensus.rs: what the two retargeting rules promise.
pub mod Wtema
pub mod Dma
