-- ===== src/Da.antt =====
-- block/internal/da
pub mod ForcedInclusion
