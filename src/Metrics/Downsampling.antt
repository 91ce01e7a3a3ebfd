-- ===== src/Metrics/Downsampling.antt =====
-- src/metrics/downsampling.rs: the means of the samples of a bucket, and the loop over the samples
-- of a host or of one container. Sums are `u128` words and means `u64` words, with their
-- wrap-around written out.
pub mod Gaps
pub mod Sums
pub mod Means
pub mod ContainerMeans
pub mod Buckets
use vpsiner.Prelude.{
  ℕ, ◌+◌, ◌*◌, ◌/◌, ◌%◌, ◌^◌, Bool, ◌||◌, List, [], ◌∷◌, ◌++◌, Option, none, some, ℤ, pos, negsuc,
  ◌-ℤ◌, wrap_i64, ltb_ℤ, eq_ℤ, max_ℤ, ltb, ◌==◌, if◌then◌else◌, ◌-◌,
}
use vpsiner.Model.ContainerId.{ContainerId}
use vpsiner.Model.Metrics.{MetricsResolution, bucket_ms, HostSample, ContainerSample, ServiceId}
use vpsiner.Metrics.Bucket.{bucket_end}

pub record GapTracker : Type 0 where
  pub first_ts : Option ℤ
  pub last_ts : Option ℤ
  pub max_interior_gap : ℤ

abbrev pub GapTracker_default : GapTracker
GapTracker_default = record { first_ts = none; last_ts = none; max_interior_gap = pos 0 }

unfoldable pub observe : GapTracker → ℤ → GapTracker
observe g ts = record {
  first_ts = elim g.first_ts [ none ↦ some ts | some first ↦ some first ];
  last_ts = some ts;
  max_interior_gap = elim g.last_ts [
    | none ↦ g.max_interior_gap
    | some last ↦ max_ℤ g.max_interior_gap (wrap_i64 (ts -ℤ last))
  ];
}

-- `(bucket_ms * max_gap_pct as u64 / 100) as i64`
unfoldable pub gap_threshold : ℕ → ℕ → ℤ
gap_threshold bucket_ms max_gap_pct = wrap_i64 (pos (bucket_ms * max_gap_pct % 2 ^ 64 / 100))

-- `none` is the panic of a tracker that has seen no sample.
unfoldable pub exceeds_max_gap : GapTracker → ℤ → ℕ → ℕ → Option Bool
unfolding gap_threshold
exceeds_max_gap g bucket_end bucket_ms max_gap_pct = elim g.first_ts [
  | none ↦ none
  | some first ↦ elim g.last_ts [
    | none ↦ none
    | some last ↦
        let bucket_start = wrap_i64 (bucket_end -ℤ pos bucket_ms) in
        let edge_start = wrap_i64 (first -ℤ bucket_start) in
        let edge_end = wrap_i64 (bucket_end -ℤ last) in
        let observed_max = max_ℤ (max_ℤ g.max_interior_gap edge_start) edge_end in
        some (ltb_ℤ (gap_threshold bucket_ms max_gap_pct) observed_max)
  ]
]

abbrev pub add_u64 : ℕ → ℕ → ℕ
add_u64 a b = (a + b) % 2 ^ 64

abbrev pub add_u128 : ℕ → ℕ → ℕ
add_u128 a b = (a + b) % 2 ^ 128

pub record OptionalGauge : Type 0 where
  pub count : ℕ
  pub total : ℕ

abbrev pub OptionalGauge_default : OptionalGauge
OptionalGauge_default = record { count = 0; total = 0 }

unfoldable pub OptionalGauge_add : OptionalGauge → Option ℕ → OptionalGauge
OptionalGauge_add g none = g
OptionalGauge_add g (some value) = record {
  count = add_u64 g.count 1;
  total = add_u128 g.total value;
}

-- `total / count` as `u64`; the division is reached with a positive count only.
unfoldable pub mean_rate : OptionalGauge → Option ℕ
mean_rate g = if ltb 0 g.count then some (g.total / g.count % 2 ^ 64) else none

pub record HostGauges : Type 0 where
  pub count : ℕ
  pub gap : GapTracker
  pub cpu_pct_mill : ℕ
  pub mem_used : ℕ
  pub storage_used : ℕ
  pub metrics_size : ℕ
  pub logs_size : ℕ
  pub net_rx_rate_mill : OptionalGauge
  pub net_tx_rate_mill : OptionalGauge
  pub disk_read_rate_mill : OptionalGauge
  pub disk_write_rate_mill : OptionalGauge
  pub log_pressure_pct_mill : OptionalGauge
  pub app_rss_bytes : OptionalGauge

abbrev pub HostGauges_default : HostGauges
HostGauges_default = record {
  count = 0;
  gap = GapTracker_default;
  cpu_pct_mill = 0;
  mem_used = 0;
  storage_used = 0;
  metrics_size = 0;
  logs_size = 0;
  net_rx_rate_mill = OptionalGauge_default;
  net_tx_rate_mill = OptionalGauge_default;
  disk_read_rate_mill = OptionalGauge_default;
  disk_write_rate_mill = OptionalGauge_default;
  log_pressure_pct_mill = OptionalGauge_default;
  app_rss_bytes = OptionalGauge_default;
}

unfoldable pub HostGauges_add : HostGauges → HostSample → HostGauges
HostGauges_add g s = record {
  count = add_u64 g.count 1;
  gap = observe g.gap s.ts;
  cpu_pct_mill = add_u128 g.cpu_pct_mill s.cpu_pct_mill;
  mem_used = add_u128 g.mem_used s.mem_used;
  storage_used = add_u128 g.storage_used s.storage_used;
  metrics_size = add_u128 g.metrics_size s.metrics_size;
  logs_size = add_u128 g.logs_size s.logs_size;
  net_rx_rate_mill = OptionalGauge_add g.net_rx_rate_mill s.net_rx_rate_mill;
  net_tx_rate_mill = OptionalGauge_add g.net_tx_rate_mill s.net_tx_rate_mill;
  disk_read_rate_mill = OptionalGauge_add g.disk_read_rate_mill s.disk_read_rate_mill;
  disk_write_rate_mill = OptionalGauge_add g.disk_write_rate_mill s.disk_write_rate_mill;
  log_pressure_pct_mill = OptionalGauge_add g.log_pressure_pct_mill s.log_pressure_pct_mill;
  app_rss_bytes = OptionalGauge_add g.app_rss_bytes s.app_rss_bytes;
}

-- A bucket with no sample, or with too long a silence, gives nothing. The gap test is reached with
-- samples only, so its panic is not reached (`finish_no_panic` in Gaps).
unfoldable pub is_discarded : ℕ → GapTracker → ℤ → ℕ → ℕ → Bool
is_discarded count gap ts bucket_ms max_gap_pct =
    if count == 0 then Bool.true else elim (exceeds_max_gap gap ts bucket_ms max_gap_pct) [
      | none ↦ Bool.true
      | some exceeds ↦ exceeds
    ]

unfoldable pub HostGauges_finish : HostGauges → ℤ → ℕ → ℕ → Option HostSample
HostGauges_finish g ts bucket_ms max_gap_pct =
    if is_discarded g.count g.gap ts bucket_ms max_gap_pct
    then none
    else some (record {
      ts = ts;
      cpu_pct_mill = g.cpu_pct_mill / g.count % 2 ^ 64;
      mem_used = g.mem_used / g.count % 2 ^ 64;
      storage_used = g.storage_used / g.count % 2 ^ 64;
      metrics_size = g.metrics_size / g.count % 2 ^ 64;
      logs_size = g.logs_size / g.count % 2 ^ 64;
      net_rx_rate_mill = mean_rate g.net_rx_rate_mill;
      net_tx_rate_mill = mean_rate g.net_tx_rate_mill;
      disk_read_rate_mill = mean_rate g.disk_read_rate_mill;
      disk_write_rate_mill = mean_rate g.disk_write_rate_mill;
      log_pressure_pct_mill = mean_rate g.log_pressure_pct_mill;
      app_rss_bytes = mean_rate g.app_rss_bytes;
    })

pub record ContainerGauges : Type 0 where
  pub count : ℕ
  pub gap : GapTracker
  pub cpu_pct_mill : ℕ
  pub mem_used : ℕ
  pub net_rx_rate_mill : OptionalGauge
  pub net_tx_rate_mill : OptionalGauge
  pub blk_read_rate_mill : OptionalGauge
  pub blk_write_rate_mill : OptionalGauge
  pub service : ServiceId
  pub cid : ContainerId

abbrev pub ContainerGauges_default : ContainerGauges
ContainerGauges_default = record {
  count = 0;
  gap = GapTracker_default;
  cpu_pct_mill = 0;
  mem_used = 0;
  net_rx_rate_mill = OptionalGauge_default;
  net_tx_rate_mill = OptionalGauge_default;
  blk_read_rate_mill = OptionalGauge_default;
  blk_write_rate_mill = OptionalGauge_default;
  service = 0;
  cid = record { bytes = 0 ∷ 0 ∷ 0 ∷ 0 ∷ 0 ∷ 0 ∷ [] };
}

unfoldable pub ContainerGauges_add : ContainerGauges → ContainerSample → ContainerGauges
ContainerGauges_add g s = record {
  count = add_u64 g.count 1;
  gap = observe g.gap s.ts;
  cpu_pct_mill = add_u128 g.cpu_pct_mill s.cpu_pct_mill;
  mem_used = add_u128 g.mem_used s.mem_used;
  net_rx_rate_mill = OptionalGauge_add g.net_rx_rate_mill s.net_rx_rate_mill;
  net_tx_rate_mill = OptionalGauge_add g.net_tx_rate_mill s.net_tx_rate_mill;
  blk_read_rate_mill = OptionalGauge_add g.blk_read_rate_mill s.blk_read_rate_mill;
  blk_write_rate_mill = OptionalGauge_add g.blk_write_rate_mill s.blk_write_rate_mill;
  service = if g.count == 0 then s.service else g.service;
  cid = if g.count == 0 then s.cid else g.cid;
}

unfoldable pub ContainerGauges_finish : ContainerGauges → ℤ → ℕ → ℕ → Option ContainerSample
ContainerGauges_finish g ts bucket_ms max_gap_pct =
    if is_discarded g.count g.gap ts bucket_ms max_gap_pct
    then none
    else some (record {
      ts = ts;
      service = g.service;
      cid = g.cid;
      cpu_pct_mill = g.cpu_pct_mill / g.count % 2 ^ 64;
      mem_used = g.mem_used / g.count % 2 ^ 64;
      net_rx_rate_mill = mean_rate g.net_rx_rate_mill;
      net_tx_rate_mill = mean_rate g.net_tx_rate_mill;
      blk_read_rate_mill = mean_rate g.blk_read_rate_mill;
      blk_write_rate_mill = mean_rate g.blk_write_rate_mill;
    })

abbrev pub i64_min : ℤ
i64_min = negsuc (2 ^ 63 - 1)

abbrev pub option_to_list : {A : Type 0} → Option A → List A
option_to_list none = []
option_to_list (some a) = a ∷ []

-- The loop that `downsample_host` and `downsample_container` share: `points`, the bucket at hand
-- and its gauges are the variables, and `points.extend` appends what `finish` gives.
module _ {S G : Type 0} (ts : S → ℤ) (default : G) (add : G → S → G) (finish : G → ℤ → Option S)
    (bucket_len : ℕ) where
  unfoldable pub downsample_loop : List S → ℤ → G → List S → List S
  downsample_loop points current_bucket gauges [] =
      points ++ option_to_list (finish gauges current_bucket)
  downsample_loop points current_bucket gauges (sample ∷ samples) =
      let bucket = bucket_end (ts sample) bucket_len in
      let same = eq_ℤ bucket current_bucket in
      downsample_loop
        (if same then points else points ++ option_to_list (finish gauges current_bucket))
        (if same then current_bucket else bucket) (add (if same then gauges else default) sample)
        samples

unfoldable pub downsample_host : List HostSample → MetricsResolution → ℕ → List HostSample
unfolding downsample_loop
downsample_host samples resolution max_gap_pct =
    downsample_loop (λ s. s.ts) HostGauges_default HostGauges_add
      (λ g ts. HostGauges_finish g ts (bucket_ms resolution) max_gap_pct) (bucket_ms resolution) []
      i64_min HostGauges_default samples

unfoldable pub downsample_container :
    List ContainerSample → MetricsResolution → ℕ → List ContainerSample
unfolding downsample_loop
downsample_container samples resolution max_gap_pct =
    downsample_loop (λ s. s.ts) ContainerGauges_default ContainerGauges_add
      (λ g ts. ContainerGauges_finish g ts (bucket_ms resolution) max_gap_pct)
      (bucket_ms resolution) [] i64_min ContainerGauges_default samples
