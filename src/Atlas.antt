-- ===== src/Atlas.antt =====
-- plugins/atlas: the map of a project.
pub mod Diff
pub mod Cycles
