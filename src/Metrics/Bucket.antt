-- ===== src/Metrics/Bucket.antt =====
-- `bucket_end` of src/metrics/downsampling.rs, and the bucket arithmetic of src/metrics/rollup.rs.
pub mod Window
pub mod Aligned
pub mod Closed
use vpsiner.Prelude.{
  ℕ, ◌-◌, ◌^◌, Bool, List, [], ◌∷◌, Option, none, some, ℤ, pos, neg, ◌*ℤ◌, ◌-ℤ◌, ◌+ℤ◌, div_euclid,
  wrap_i64, eq_ℤ, ltb_ℤ, leb_ℤ, leb, if◌then◌else◌, take, drop, suc,
}
use vpsiner.Model.Metrics.{MetricsResolution, TimeRange, coarse, bucket_ms}

-- The source panics where the length is 0 or does not fit `i64`. Every caller passes the length of
-- a resolution, so this is a total function here.
unfoldable pub bucket_end : ℤ → ℕ → ℤ
bucket_end ts bucket_ms =
    wrap_i64 (wrap_i64 (neg (div_euclid (wrap_i64 (neg ts)) bucket_ms)) *ℤ pos bucket_ms)

-- The bucket that the previous timestamp fell into, if the new one lies in another.
unfoldable pub closed_bucket : ℤ → ℤ → MetricsResolution → Option ℤ
closed_bucket previous_ts new_ts resolution =
    let previous = bucket_end previous_ts (bucket_ms resolution) in
    if eq_ℤ (bucket_end new_ts (bucket_ms resolution)) previous then none else some previous

unfoldable pub source_range : ℤ → MetricsResolution → TimeRange
source_range bucket_end resolution = record {
  from = wrap_i64 (wrap_i64 (bucket_end -ℤ pos (bucket_ms resolution)) +ℤ pos 1);
  to = bucket_end;
}

closed_by : ℤ → ℤ → List MetricsResolution → List (MetricsResolution × ℤ)
closed_by previous_ts new_ts [] = []
closed_by previous_ts new_ts (resolution ∷ rest) =
    elim (closed_bucket previous_ts new_ts resolution) [
      | none ↦ closed_by previous_ts new_ts rest
      | some closed ↦ (resolution, closed) ∷ closed_by previous_ts new_ts rest
    ]

unfoldable pub resolutions_closed_by : ℤ → ℤ → List (MetricsResolution × ℤ)
unfolding closed_by
resolutions_closed_by previous_ts new_ts = closed_by previous_ts new_ts coarse

-- `max_by_key`: of several greatest keys the last.
widest : MetricsResolution × ℤ → List (MetricsResolution × ℤ) → MetricsResolution × ℤ
widest best [] = best
widest best (next ∷ rest) =
    widest (if leb (bucket_ms best.0) (bucket_ms next.0) then next else best) rest

unfoldable pub widest_source_range : List (MetricsResolution × ℤ) → Option TimeRange
unfolding widest source_range
widest_source_range [] = none
widest_source_range (first ∷ rest) =
    let (resolution, closed) = widest first rest in some (source_range closed resolution)

module _ {ℓ} {A : Type ℓ} where
  -- The index of the first element that fails the test, on a slice where the elements that pass
  -- it come first.
  unfoldable pub partition_point : (A → Bool) → List A → ℕ
  partition_point p [] = 0
  partition_point p (x ∷ xs) = let rest = suc (partition_point p xs) in if p x then rest else 0

  -- `none` is the panic of a slice whose start lies behind its end.
  unfoldable pub slice_by_range : List A → TimeRange → (A → ℤ) → Option (List A)
  unfolding partition_point
  slice_by_range samples range ts =
      let start = partition_point (λ s. ltb_ℤ (ts s) range.from) samples in
      let end = partition_point (λ s. leb_ℤ (ts s) range.to) samples in
      if leb start end then some (take (end - start) (drop start samples)) else none
