-- ===== src/Tui.antt =====
-- internal/tui
pub mod App
