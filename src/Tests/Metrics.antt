-- ===== src/Tests/Metrics.antt =====
-- src/metrics/: times, rows and samples.
use mathlib.Core.List.{foldl}
use vpsiner.Prelude.{
  ℕ, ◌≡◌, ◌↔◌, ◌<◌, ◌^◌, ◌*◌, ◌/◌, refl, String, Bool, true, false, List, [], ◌∷◌, Option, some,
  none, ℤ, pos, negsuc, ◌*ℤ◌, ◌+ℤ◌, ◌-ℤ◌, ◌≤ℤ◌, ◌<ℤ◌, arith, int_laws, All, keep, eq_ℤ, is_some,
  map, length, if◌then◌else◌,
}
use vpsiner.Model.Metrics.{HostSample, MetricsResolution}
use vpsiner.Metrics.Bucket.{bucket_end, source_range, slice_by_range}
use vpsiner.Metrics.Bucket.Window.{IsTime}
use vpsiner.Metrics.Bucket.Closed.{IsSorted, slice-closed}
use vpsiner.Metrics.Downsampling.{
  HostGauges_finish, HostGauges_add, HostGauges_default, ContainerGauges_finish,
  ContainerGauges_add, ContainerGauges_default, downsample_host, downsample_container,
}
use vpsiner.Metrics.Downsampling.Gaps.{silences, HostGauges_finish-kept_iff}
use vpsiner.Metrics.Downsampling.Means.{HostSampleFits, HostSampleMeans, HostGauges_finish-means}
use vpsiner.Metrics.Downsampling.Buckets.{
  IsAscending, host_buckets, host_ends, downsample_host-per_bucket,
}
use vpsiner.Metrics.Watcher.{MetricsSource, subscribe, new}
use vpsiner.Metrics.Watcher.Latest.{observe_run, subscribe-latest}

time : (n : ℕ) → n < 2 ^ 61 → IsTime (pos n)
time n h = record { above = h; below = omega arith }

abbrev sample : ℕ → ℕ → HostSample
sample ts cpu = record {
  ts = pos ts;
  cpu_pct_mill = cpu;
  mem_used = 7;
  storage_used = 0;
  metrics_size = 0;
  logs_size = 0;
  net_rx_rate_mill = some 5;
  net_tx_rate_mill = none;
  disk_read_rate_mill = none;
  disk_write_rate_mill = none;
  log_pressure_pct_mill = none;
  app_rss_bytes = none;
}

abbrev host_samples : List HostSample
host_samples = sample 50000 10 ∷ sample 60000 20 ∷ sample 70000 40 ∷ []

host_times : All (λ s. IsTime s.ts) host_samples
host_times = (time 50000 (omega arith), (time 60000 (omega arith), (time 70000 (omega arith), tt)))

host-IsSorted : IsSorted (λ s. s.ts) host_samples
host-IsSorted = ((omega arith, (omega arith, tt)), ((omega arith, tt), (tt, tt)))

slice-closed_example :
    slice_by_range host_samples
      (source_range (bucket_end (pos 50000) 60000) MetricsResolution.one_minute)
      (λ s. s.ts)
    ≡ some (keep (λ s. eq_ℤ (bucket_end s.ts 60000) (bucket_end (pos 50000) 60000)) host_samples)
slice-closed_example =
    slice-closed (λ s. s.ts) (pos 50000) MetricsResolution.one_minute (time 50000 (omega arith))
      host_samples host-IsSorted host_times

HostGauges_finish-kept_example :
    (is_some (
        HostGauges_finish
          (foldl HostGauges_add HostGauges_default host_samples)
          (pos 70000)
          60000
          70)
      ≡ true)
    ↔ All
        (λ d. d ≤ℤ pos (60000 * 70 / 100))
        (silences (pos 70000 -ℤ pos 60000) (map (λ x. x.ts) host_samples) (pos 70000))
unfolding ◌-ℤ◌
HostGauges_finish-kept_example =
    HostGauges_finish-kept_iff 60000 70 (pos 70000) (omega arith) (omega arith)
      (omega arith, omega arith) (omega int_laws, omega int_laws) (sample 50000 10)
      (sample 60000 20 ∷ sample 70000 40 ∷ []) (omega arith) host_times

downsample_host-per_bucket_example :
    (downsample_host host_samples MetricsResolution.one_minute 100
      ≡ host_buckets MetricsResolution.one_minute 100 host_samples
          (host_ends MetricsResolution.one_minute 100 host_samples))
    × IsAscending (host_ends MetricsResolution.one_minute 100 host_samples)
downsample_host-per_bucket_example =
    downsample_host-per_bucket MetricsResolution.one_minute 100 host_samples host-IsSorted
      host_times

subscribe-latest_example :
    subscribe
      (observe_run new (
        (MetricsSource.host, pos 5000)
        ∷ (MetricsSource.containers, pos 95000)
        ∷ (MetricsSource.host, pos 61000)
        ∷ []))
      MetricsSource.host
      MetricsResolution.one_minute
    ≡ record { value = pos 120000; version = 2 }
unfolding bucket_end vpsiner.Prelude.wrap_i64 ◌*ℤ◌ vpsiner.Prelude.neg vpsiner.Prelude.div_euclid
subscribe-latest_example = subscribe-latest MetricsSource.host MetricsResolution.one_minute (
    (MetricsSource.host, pos 5000)
    ∷ (MetricsSource.containers, pos 95000)
    ∷ (MetricsSource.host, pos 61000)
    ∷ [])

host_fits : All HostSampleFits host_samples
host_fits = (fits 10 (omega arith), (fits 20 (omega arith), (fits 40 (omega arith), tt)))
  where
    fits : {ts : ℕ} → (cpu : ℕ) → cpu < 2 ^ 64 → HostSampleFits (sample ts cpu)
    fits cpu h = record {
      cpu_pct_mill = h;
      mem_used = omega arith;
      storage_used = omega arith;
      metrics_size = omega arith;
      logs_size = omega arith;
      net_rx_rate_mill = omega arith;
      net_tx_rate_mill = tt;
      disk_read_rate_mill = tt;
      disk_write_rate_mill = tt;
      log_pressure_pct_mill = tt;
      app_rss_bytes = tt;
    }

host_finished :
    HostGauges_finish (foldl HostGauges_add HostGauges_default host_samples) (pos 70000) 60000 70
    ≡ some (sample 70000 23)
unfolding HostGauges_finish HostGauges_add vpsiner.Metrics.Downsampling.is_discarded
    vpsiner.Metrics.Downsampling.exceeds_max_gap vpsiner.Metrics.Downsampling.observe
    vpsiner.Prelude.wrap_i64 ◌-ℤ◌ vpsiner.Metrics.Downsampling.mean_rate
    vpsiner.Metrics.Downsampling.OptionalGauge_add
host_finished = refl

HostGauges_finish-means_example : HostSampleMeans (sample 70000 23) host_samples (pos 70000)
HostGauges_finish-means_example =
    HostGauges_finish-means host_samples (pos 70000) 60000 70 (sample 70000 23) (omega arith)
      host_fits host_finished
