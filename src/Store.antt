-- ===== src/Store.antt =====
-- internal/store
pub mod Ring
pub mod Percentile
pub mod Series
pub mod TraceMap
pub mod Services
