-- ===== src/Model/Metrics/Resolution.antt =====
-- src/model/metrics.rs: the resolution chosen for a queried range.
use vpsiner.Prelude.{◌*◌, ◌≤◌, ◌≢◌, pos_part, arith, ◌-ℤ◌}
use vpsiner.Model.Metrics.{
  TimeRange, MetricsResolution, one_hour, bucket_ms, max_bucket_ms, for_range,
}

-- Unless the widest resolution is chosen for a queried range, at most 289 buckets of the chosen
-- resolution make up the range.
pub for_range-points :
    (range : TimeRange)
    → for_range range ≢ one_hour
    → pos_part (range.to -ℤ range.from) ≤ 289 * bucket_ms (for_range range)
unfolding for_range ◌-ℤ◌
for_range-points range h = ground arith

pub max_bucket_ms-le : (r : MetricsResolution) → bucket_ms r ≤ max_bucket_ms
unfolding max_bucket_ms
max_bucket_ms-le MetricsResolution.one_hour = omega arith
max_bucket_ms-le _ = omega arith
