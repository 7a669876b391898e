-- ===== src/Submitting.antt =====
-- block/internal/submitting
pub mod Batching
pub mod Retry
pub mod Inclusion
pub mod Limit
pub mod Submit
mod Tests
