-- ===== src/Metrics/Downsampling/Means.antt =====
-- src/metrics/downsampling.rs: the values of the sample that a bucket is reduced to.
use mathlib.Core.List.{foldl}
use vpsiner.Prelude.{
  ℕ, ◌^◌, ◌<◌, ◌/◌, ◌%◌, ◌≡◌, refl, false, List, some, ℤ, All, arith, length, ◌∙◌, [], ◌∷◌,
}
use vpsiner.Model.Metrics.{HostSample}
use vpsiner.Metrics.Downsampling.{
  mean_rate, HostGauges, HostGauges_default, HostGauges_add, HostGauges_finish, is_discarded,
  GapTracker,
}
use vpsiner.Metrics.Downsampling.Sums.{
  sum_of, present, Fits, mean, count_lem, sum-mean, optional-mean,
}

pub kept-count :
    (count : ℕ) (gap : GapTracker) (ts : ℤ) (b pct : ℕ)
    → is_discarded count gap ts b pct ≡ false
    → 0 < count
unfolding is_discarded
kept-count count gap ts b pct h = ground arith

-- What the `u64` columns of a sample hold.
pub record HostSampleFits (s : HostSample) : Type 0 where
  pub cpu_pct_mill : s.cpu_pct_mill < 2 ^ 64
  pub mem_used : s.mem_used < 2 ^ 64
  pub storage_used : s.storage_used < 2 ^ 64
  pub metrics_size : s.metrics_size < 2 ^ 64
  pub logs_size : s.logs_size < 2 ^ 64
  pub net_rx_rate_mill : Fits s.net_rx_rate_mill
  pub net_tx_rate_mill : Fits s.net_tx_rate_mill
  pub disk_read_rate_mill : Fits s.disk_read_rate_mill
  pub disk_write_rate_mill : Fits s.disk_write_rate_mill
  pub log_pressure_pct_mill : Fits s.log_pressure_pct_mill
  pub app_rss_bytes : Fits s.app_rss_bytes

-- `p` holds the mean of each value over all samples, and of each rate over the samples that have it.
pub record HostSampleMeans (p : HostSample) (samples : List HostSample) (ts : ℤ) : Type 0 where
  pub at_end : p.ts ≡ ts
  pub cpu_pct_mill : p.cpu_pct_mill ≡ sum_of (λ s. s.cpu_pct_mill) samples / length samples
  pub mem_used : p.mem_used ≡ sum_of (λ s. s.mem_used) samples / length samples
  pub storage_used : p.storage_used ≡ sum_of (λ s. s.storage_used) samples / length samples
  pub metrics_size : p.metrics_size ≡ sum_of (λ s. s.metrics_size) samples / length samples
  pub logs_size : p.logs_size ≡ sum_of (λ s. s.logs_size) samples / length samples
  pub net_rx_rate_mill : p.net_rx_rate_mill ≡ mean (present (λ s. s.net_rx_rate_mill) samples)
  pub net_tx_rate_mill : p.net_tx_rate_mill ≡ mean (present (λ s. s.net_tx_rate_mill) samples)
  pub disk_read_rate_mill :
      p.disk_read_rate_mill ≡ mean (present (λ s. s.disk_read_rate_mill) samples)
  pub disk_write_rate_mill :
      p.disk_write_rate_mill ≡ mean (present (λ s. s.disk_write_rate_mill) samples)
  pub log_pressure_pct_mill :
      p.log_pressure_pct_mill ≡ mean (present (λ s. s.log_pressure_pct_mill) samples)
  pub app_rss_bytes : p.app_rss_bytes ≡ mean (present (λ s. s.app_rss_bytes) samples)

record HostGaugesKept (g : HostGauges) (ts : ℤ) (bucket_ms max_gap_pct : ℕ) (p : HostSample)
    : Type 0 where
  pub kept : is_discarded g.count g.gap ts bucket_ms max_gap_pct ≡ false
  pub at_end : p.ts ≡ ts
  pub cpu_pct_mill : p.cpu_pct_mill ≡ g.cpu_pct_mill / g.count % 2 ^ 64
  pub mem_used : p.mem_used ≡ g.mem_used / g.count % 2 ^ 64
  pub storage_used : p.storage_used ≡ g.storage_used / g.count % 2 ^ 64
  pub metrics_size : p.metrics_size ≡ g.metrics_size / g.count % 2 ^ 64
  pub logs_size : p.logs_size ≡ g.logs_size / g.count % 2 ^ 64
  pub net_rx_rate_mill : p.net_rx_rate_mill ≡ mean_rate g.net_rx_rate_mill
  pub net_tx_rate_mill : p.net_tx_rate_mill ≡ mean_rate g.net_tx_rate_mill
  pub disk_read_rate_mill : p.disk_read_rate_mill ≡ mean_rate g.disk_read_rate_mill
  pub disk_write_rate_mill : p.disk_write_rate_mill ≡ mean_rate g.disk_write_rate_mill
  pub log_pressure_pct_mill : p.log_pressure_pct_mill ≡ mean_rate g.log_pressure_pct_mill
  pub app_rss_bytes : p.app_rss_bytes ≡ mean_rate g.app_rss_bytes

HostGauges_finish-Kept :
    (g : HostGauges) (ts : ℤ) (bucket_ms max_gap_pct : ℕ) (p : HostSample)
    → HostGauges_finish g ts bucket_ms max_gap_pct ≡ some p
    → HostGaugesKept g ts bucket_ms max_gap_pct p
unfolding HostGauges_finish
HostGauges_finish-Kept g ts bucket_ms max_gap_pct p h = ground arith

Fits-All_hostsample :
    (samples : List HostSample)
    → All HostSampleFits samples
    → All (λ s. s.cpu_pct_mill < 2 ^ 64) samples
      × All (λ s. s.mem_used < 2 ^ 64) samples
      × All (λ s. s.storage_used < 2 ^ 64) samples
      × All (λ s. s.metrics_size < 2 ^ 64) samples
      × All (λ s. s.logs_size < 2 ^ 64) samples
      × All (λ s. Fits s.net_rx_rate_mill) samples
      × All (λ s. Fits s.net_tx_rate_mill) samples
      × All (λ s. Fits s.disk_read_rate_mill) samples
      × All (λ s. Fits s.disk_write_rate_mill) samples
      × All (λ s. Fits s.log_pressure_pct_mill) samples
      × All (λ s. Fits s.app_rss_bytes) samples
Fits-All_hostsample [] h = (tt, tt, tt, tt, tt, tt, tt, tt, tt, tt, tt)
Fits-All_hostsample (s ∷ rest) (h, t) =
    let (h0, h1, h2, h3, h4, h5, h6, h7, h8, h9, h10) = Fits-All_hostsample rest t in
    (
      (h.cpu_pct_mill, h0),
      (h.mem_used, h1),
      (h.storage_used, h2),
      (h.metrics_size, h3),
      (h.logs_size, h4),
      (h.net_rx_rate_mill, h5),
      (h.net_tx_rate_mill, h6),
      (h.disk_read_rate_mill, h7),
      (h.disk_write_rate_mill, h8),
      (h.log_pressure_pct_mill, h9),
      (h.app_rss_bytes, h10),
    )

-- Where a host bucket of fewer than 2^64 samples, whose values all fit 64 bits, gives a sample,
-- that stands at the end of the bucket and holds the exact rounded-down mean of each value, and of
-- each optional value the mean over the samples that have it: nothing is cut off by its word.
pub HostGauges_finish-means :
    (samples : List HostSample) (ts : ℤ) (bucket_ms max_gap_pct : ℕ) (p : HostSample)
    → length samples < 2 ^ 64
    → All HostSampleFits samples
    → HostGauges_finish (foldl HostGauges_add HostGauges_default samples) ts bucket_ms max_gap_pct
      ≡ some p
    → HostSampleMeans p samples ts
unfolding HostGauges_add
HostGauges_finish-means samples ts bucket_ms max_gap_pct p few fit h =
    let add = HostGauges_add in
    let zero' : HostGauges = HostGauges_default in
    let g = foldl add zero' samples in
    let k = HostGauges_finish-Kept g ts bucket_ms max_gap_pct p h in
    let positive = kept-count g.count g.gap ts bucket_ms max_gap_pct k.kept in
    let c = count_lem add zero' samples few (λ x. x.count) refl (λ _ _. refl) in
    let (h0, h1, h2, h3, h4, h5, h6, h7, h8, h9, h10) = Fits-All_hostsample samples fit in
    record {
      at_end = k.at_end;
      cpu_pct_mill =
          k.cpu_pct_mill
          ∙ sum-mean add zero' samples few g.count (λ x. x.cpu_pct_mill) (λ s. s.cpu_pct_mill)
              (record { start = refl; step = λ _ _. refl }) c positive h0;
      mem_used =
          k.mem_used
          ∙ sum-mean add zero' samples few g.count (λ x. x.mem_used) (λ s. s.mem_used)
              (record { start = refl; step = λ _ _. refl }) c positive h1;
      storage_used =
          k.storage_used
          ∙ sum-mean add zero' samples few g.count (λ x. x.storage_used) (λ s. s.storage_used)
              (record { start = refl; step = λ _ _. refl }) c positive h2;
      metrics_size =
          k.metrics_size
          ∙ sum-mean add zero' samples few g.count (λ x. x.metrics_size) (λ s. s.metrics_size)
              (record { start = refl; step = λ _ _. refl }) c positive h3;
      logs_size =
          k.logs_size
          ∙ sum-mean add zero' samples few g.count (λ x. x.logs_size) (λ s. s.logs_size)
              (record { start = refl; step = λ _ _. refl }) c positive h4;
      net_rx_rate_mill =
          k.net_rx_rate_mill
          ∙ optional-mean add zero' samples few (λ x. x.net_rx_rate_mill) (λ s. s.net_rx_rate_mill)
              (record { start = refl; step = λ _ _. refl }) h5;
      net_tx_rate_mill =
          k.net_tx_rate_mill
          ∙ optional-mean add zero' samples few (λ x. x.net_tx_rate_mill) (λ s. s.net_tx_rate_mill)
              (record { start = refl; step = λ _ _. refl }) h6;
      disk_read_rate_mill =
          k.disk_read_rate_mill
          ∙ optional-mean add zero' samples few (λ x. x.disk_read_rate_mill)
              (λ s. s.disk_read_rate_mill) (record { start = refl; step = λ _ _. refl }) h7;
      disk_write_rate_mill =
          k.disk_write_rate_mill
          ∙ optional-mean add zero' samples few (λ x. x.disk_write_rate_mill)
              (λ s. s.disk_write_rate_mill) (record { start = refl; step = λ _ _. refl }) h8;
      log_pressure_pct_mill =
          k.log_pressure_pct_mill
          ∙ optional-mean add zero' samples few (λ x. x.log_pressure_pct_mill)
              (λ s. s.log_pressure_pct_mill) (record { start = refl; step = λ _ _. refl }) h9;
      app_rss_bytes =
          k.app_rss_bytes
          ∙ optional-mean add zero' samples few (λ x. x.app_rss_bytes) (λ s. s.app_rss_bytes)
              (record { start = refl; step = λ _ _. refl }) h10;
    }
