-- ===== src/Types.antt =====
-- types: headers, data and the chain state.
pub mod Header
pub mod Chain
