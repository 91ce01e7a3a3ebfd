-- ===== src/Docker.antt =====
-- src/docker/: the containers that are observed, their commands, and the start of their logs.
pub mod Observed
pub mod Controls
pub mod Since
