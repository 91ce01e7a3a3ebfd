-- ===== src/Model/Metrics.antt =====
-- src/model/metrics.rs, src/model/time.rs, src/model/service_id.rs: resolutions, stored samples,
-- time ranges. Sizes and rates are `u64` values, kept as numbers.
pub mod Resolution
use vpsiner.Prelude.{
  ℕ, ◌*◌, ◌+◌, ◌-◌, ◌^◌, String, Option, List, [], ◌∷◌, ℤ, pos, negsuc, ◌-ℤ◌, ltb_ℤ, leb_ℤ, leb,
  if◌then◌else◌, max,
}
use vpsiner.Model.ContainerId.{ContainerId}
use mathlib.Core.List.{foldl}

-- `ServiceId(u32)`
abbrev pub ServiceId : Type 0
ServiceId = ℕ

pub record TimeRange : Type 0 where
  pub from : ℤ
  pub to : ℤ

pub data MetricsResolution : Type 0 where
  ten_seconds one_minute five_minutes one_hour : MetricsResolution

abbrev pub coarse : List MetricsResolution
coarse = one_minute ∷ five_minutes ∷ one_hour ∷ []

abbrev pub bucket_ms : MetricsResolution → ℕ
bucket_ms ten_seconds = 10000
bucket_ms one_minute = 60000
bucket_ms five_minutes = 300000
bucket_ms one_hour = 3600000

unfoldable pub max_bucket_ms : ℕ
max_bucket_ms = foldl (λ m r. max m (bucket_ms r)) 0 coarse

unfoldable pub as_str : MetricsResolution → String
as_str ten_seconds = "10s"
as_str one_minute = "1m"
as_str five_minutes = "5m"
as_str one_hour = "1h"

abbrev pub boundary_tolerance_ms : ℕ
boundary_tolerance_ms = 60000

-- `i64::saturating_sub`
unfoldable pub saturating_sub : ℤ → ℤ → ℤ
unfolding ◌-ℤ◌
saturating_sub a b =
    let r = a -ℤ b in
    if leb_ℤ (pos (2 ^ 63)) r
    then pos (2 ^ 63 - 1)
    else if ltb_ℤ r (negsuc (2 ^ 63 - 1))
    then negsuc (2 ^ 63 - 1)
    else r

unfoldable pub for_range : TimeRange → MetricsResolution
unfolding saturating_sub
for_range range =
    let span = saturating_sub range.to range.from in
    if leb_ℤ span (pos (30 * 60 * 1000 + boundary_tolerance_ms))
    then ten_seconds
    else if leb_ℤ span (pos (3 * 60 * 60 * 1000 + boundary_tolerance_ms))
    then one_minute
    else if leb_ℤ span (pos (24 * 60 * 60 * 1000 + boundary_tolerance_ms))
    then five_minutes
    else one_hour

pub record HostSample : Type 0 where
  pub ts : ℤ
  pub cpu_pct_mill : ℕ
  pub mem_used : ℕ
  pub storage_used : ℕ
  pub metrics_size : ℕ
  pub logs_size : ℕ
  pub net_rx_rate_mill : Option ℕ
  pub net_tx_rate_mill : Option ℕ
  pub disk_read_rate_mill : Option ℕ
  pub disk_write_rate_mill : Option ℕ
  pub log_pressure_pct_mill : Option ℕ
  pub app_rss_bytes : Option ℕ

pub record ContainerSample : Type 0 where
  pub ts : ℤ
  pub service : ServiceId
  pub cid : ContainerId
  pub cpu_pct_mill : ℕ
  pub mem_used : ℕ
  pub net_rx_rate_mill : Option ℕ
  pub net_tx_rate_mill : Option ℕ
  pub blk_read_rate_mill : Option ℕ
  pub blk_write_rate_mill : Option ℕ
