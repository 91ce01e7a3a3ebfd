-- ===== src/Metrics/Downsampling/ContainerMeans.antt =====
-- src/metrics/downsampling.rs: the values of the sample that a bucket of one container is reduced to.
use mathlib.Core.List.{foldl}
use vpsiner.Prelude.{
  ℕ, ◌^◌, ◌<◌, ◌/◌, ◌%◌, ◌≡◌, refl, false, List, some, ℤ, All, arith, length, ◌∙◌, [], ◌∷◌,
}
use vpsiner.Model.Metrics.{ContainerSample}
use vpsiner.Metrics.Downsampling.{
  mean_rate, ContainerGauges, ContainerGauges_default, ContainerGauges_add, ContainerGauges_finish,
  is_discarded,
}
use vpsiner.Metrics.Downsampling.Sums.{
  sum_of, present, Fits, mean, count_lem, sum-mean, optional-mean,
}
use vpsiner.Metrics.Downsampling.Means.{kept-count}

-- What the `u64` columns of a sample hold.
pub record ContainerSampleFits (s : ContainerSample) : Type 0 where
  pub cpu_pct_mill : s.cpu_pct_mill < 2 ^ 64
  pub mem_used : s.mem_used < 2 ^ 64
  pub net_rx_rate_mill : Fits s.net_rx_rate_mill
  pub net_tx_rate_mill : Fits s.net_tx_rate_mill
  pub blk_read_rate_mill : Fits s.blk_read_rate_mill
  pub blk_write_rate_mill : Fits s.blk_write_rate_mill

-- `p` holds the mean of each value over all samples, and of each rate over the samples that have it.
pub record ContainerSampleMeans (p : ContainerSample) (samples : List ContainerSample) (ts : ℤ)
    : Type 0 where
  pub at_end : p.ts ≡ ts
  pub cpu_pct_mill : p.cpu_pct_mill ≡ sum_of (λ s. s.cpu_pct_mill) samples / length samples
  pub mem_used : p.mem_used ≡ sum_of (λ s. s.mem_used) samples / length samples
  pub net_rx_rate_mill : p.net_rx_rate_mill ≡ mean (present (λ s. s.net_rx_rate_mill) samples)
  pub net_tx_rate_mill : p.net_tx_rate_mill ≡ mean (present (λ s. s.net_tx_rate_mill) samples)
  pub blk_read_rate_mill : p.blk_read_rate_mill ≡ mean (present (λ s. s.blk_read_rate_mill) samples)
  pub blk_write_rate_mill :
      p.blk_write_rate_mill ≡ mean (present (λ s. s.blk_write_rate_mill) samples)

record ContainerGaugesKept (g : ContainerGauges) (ts : ℤ) (bucket_ms max_gap_pct : ℕ)
    (p : ContainerSample) : Type 0 where
  pub kept : is_discarded g.count g.gap ts bucket_ms max_gap_pct ≡ false
  pub at_end : p.ts ≡ ts
  pub cpu_pct_mill : p.cpu_pct_mill ≡ g.cpu_pct_mill / g.count % 2 ^ 64
  pub mem_used : p.mem_used ≡ g.mem_used / g.count % 2 ^ 64
  pub net_rx_rate_mill : p.net_rx_rate_mill ≡ mean_rate g.net_rx_rate_mill
  pub net_tx_rate_mill : p.net_tx_rate_mill ≡ mean_rate g.net_tx_rate_mill
  pub blk_read_rate_mill : p.blk_read_rate_mill ≡ mean_rate g.blk_read_rate_mill
  pub blk_write_rate_mill : p.blk_write_rate_mill ≡ mean_rate g.blk_write_rate_mill

ContainerGauges_finish-Kept :
    (g : ContainerGauges) (ts : ℤ) (bucket_ms max_gap_pct : ℕ) (p : ContainerSample)
    → ContainerGauges_finish g ts bucket_ms max_gap_pct ≡ some p
    → ContainerGaugesKept g ts bucket_ms max_gap_pct p
unfolding ContainerGauges_finish
ContainerGauges_finish-Kept g ts bucket_ms max_gap_pct p h = ground arith

Fits-All_containersample :
    (samples : List ContainerSample)
    → All ContainerSampleFits samples
    → All (λ s. s.cpu_pct_mill < 2 ^ 64) samples
      × All (λ s. s.mem_used < 2 ^ 64) samples
      × All (λ s. Fits s.net_rx_rate_mill) samples
      × All (λ s. Fits s.net_tx_rate_mill) samples
      × All (λ s. Fits s.blk_read_rate_mill) samples
      × All (λ s. Fits s.blk_write_rate_mill) samples
Fits-All_containersample [] h = (tt, tt, tt, tt, tt, tt)
Fits-All_containersample (s ∷ rest) (h, t) =
    let (h0, h1, h2, h3, h4, h5) = Fits-All_containersample rest t in
    (
      (h.cpu_pct_mill, h0),
      (h.mem_used, h1),
      (h.net_rx_rate_mill, h2),
      (h.net_tx_rate_mill, h3),
      (h.blk_read_rate_mill, h4),
      (h.blk_write_rate_mill, h5),
    )

-- Where a container bucket of fewer than 2^64 samples, whose values all fit 64 bits, gives a
-- sample, that stands at the end of the bucket and holds the exact rounded-down mean of each
-- value, and of each optional value the mean over the samples that have it: nothing is cut off by
-- its word.
pub ContainerGauges_finish-means :
    (samples : List ContainerSample) (ts : ℤ) (bucket_ms max_gap_pct : ℕ) (p : ContainerSample)
    → length samples < 2 ^ 64
    → All ContainerSampleFits samples
    → ContainerGauges_finish
        (foldl ContainerGauges_add ContainerGauges_default samples)
        ts
        bucket_ms
        max_gap_pct
      ≡ some p
    → ContainerSampleMeans p samples ts
unfolding ContainerGauges_add
ContainerGauges_finish-means samples ts bucket_ms max_gap_pct p few fit h =
    let add = ContainerGauges_add in
    let zero' : ContainerGauges = ContainerGauges_default in
    let g = foldl add zero' samples in
    let k = ContainerGauges_finish-Kept g ts bucket_ms max_gap_pct p h in
    let positive = kept-count g.count g.gap ts bucket_ms max_gap_pct k.kept in
    let c = count_lem add zero' samples few (λ x. x.count) refl (λ _ _. refl) in
    let (h0, h1, h2, h3, h4, h5) = Fits-All_containersample samples fit in
    record {
      at_end = k.at_end;
      cpu_pct_mill =
          k.cpu_pct_mill
          ∙ sum-mean add zero' samples few g.count (λ x. x.cpu_pct_mill) (λ s. s.cpu_pct_mill)
              (record { start = refl; step = λ _ _. refl }) c positive h0;
      mem_used =
          k.mem_used
          ∙ sum-mean add zero' samples few g.count (λ x. x.mem_used) (λ s. s.mem_used)
              (record { start = refl; step = λ _ _. refl }) c positive h1;
      net_rx_rate_mill =
          k.net_rx_rate_mill
          ∙ optional-mean add zero' samples few (λ x. x.net_rx_rate_mill) (λ s. s.net_rx_rate_mill)
              (record { start = refl; step = λ _ _. refl }) h2;
      net_tx_rate_mill =
          k.net_tx_rate_mill
          ∙ optional-mean add zero' samples few (λ x. x.net_tx_rate_mill) (λ s. s.net_tx_rate_mill)
              (record { start = refl; step = λ _ _. refl }) h3;
      blk_read_rate_mill =
          k.blk_read_rate_mill
          ∙ optional-mean add zero' samples few (λ x. x.blk_read_rate_mill)
              (λ s. s.blk_read_rate_mill) (record { start = refl; step = λ _ _. refl }) h4;
      blk_write_rate_mill =
          k.blk_write_rate_mill
          ∙ optional-mean add zero' samples few (λ x. x.blk_write_rate_mill)
              (λ s. s.blk_write_rate_mill) (record { start = refl; step = λ _ _. refl }) h5;
    }
