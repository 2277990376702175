-- ===== src/Panels.antt =====
-- internal/tui/panels: the state of the panels, without their drawing.
pub mod Traces
pub mod Logs
pub mod Metrics
pub mod Overview
pub mod Services
