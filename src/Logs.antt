-- ===== src/Logs.antt =====
-- src/logs/: the buffer of log lines, and the helpers on their texts.
pub mod Buffer
pub mod Helpers
pub mod FlushWatcher
pub mod Levels
pub mod Weeks
pub mod Rows
pub mod Store
pub mod Locks
