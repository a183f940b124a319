-- ===== src/Model.antt =====
-- internal/model: the records that the components pass to each other.
pub mod Time
pub mod Log
pub mod Metrics
