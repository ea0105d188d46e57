-- ===== src/Sentinel.antt =====
-- plugins/sentinel/cli: the security scanner of the Sentinel plugin.
pub mod Kube
pub mod Finding
pub mod Pods
pub mod Remediation
pub mod Cluster
pub mod Profiles
pub mod Registered
pub mod Scan
