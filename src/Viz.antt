-- ===== src/Viz.antt =====
-- plugins/viz: the terminal dashboard.
pub mod Types
pub mod Retry
pub mod Ui
