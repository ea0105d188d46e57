-- ===== src/Plugin.antt =====
-- pkg/plugin: the plugins of the command-line tool.
pub mod Trust
