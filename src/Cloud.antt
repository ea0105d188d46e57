-- ===== src/Cloud.antt =====
-- pkg/cloud: authentication for managed clusters.
pub mod Token
