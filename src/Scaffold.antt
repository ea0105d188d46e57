-- ===== src/Scaffold.antt =====
-- pkg/scaffold: generating a project and merging later versions of the templates into it.
pub mod Merge
pub mod Manifest
