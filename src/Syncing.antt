-- ===== src/Syncing.antt =====
-- block/internal/syncing
pub mod Forced
pub mod Priority
pub mod Retriever
pub mod Sync
