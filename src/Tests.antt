-- ===== src/Tests.antt =====
-- Each theorem that has conditions, at a concrete input that meets them.
pub mod Model
pub mod Metrics
pub mod Samples
pub mod Logs
pub mod Metadata
pub mod Docker
pub mod DbVersion
pub mod Texts
pub mod Config
pub mod Store
