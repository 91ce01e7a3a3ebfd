-- ===== src/Metadata.antt =====
-- src/metadata/: the dictionary of the services, its cache, and the checkpoints of the logs.
pub mod Store
pub mod Registry
pub mod Checkpoints
