-- ===== src/Model.antt =====
-- src/model: the data that the other parts share.
pub mod ContainerId
pub mod Logs
pub mod Metrics
pub mod Containers
