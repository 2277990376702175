-- ===== src/Render.antt =====
-- internal/render: what the panels draw, as lists of cells; colours and styles are left out.
pub mod Cells
pub mod Waterfall
pub mod Buckets
