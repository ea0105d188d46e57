-- ===== src/Bard.antt =====
-- plugins/bard: the terminal assistant.
pub mod History
pub mod Tokens
