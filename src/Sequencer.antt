-- ===== src/Sequencer.antt =====
-- pkg/sequencers
pub mod Wal
pub mod TestData
pub mod Key
pub mod Queue
pub mod Checkpoint
pub mod Filter
pub mod Single
pub mod Based
