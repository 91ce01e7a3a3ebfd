-- ===== src/Metrics.antt =====
-- src/metrics: samples, buckets, rollups and the notifications about them.
pub mod Bucket
pub mod Bucketizer
pub mod Downsampling
pub mod Watcher
