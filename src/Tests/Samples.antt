-- ===== src/Tests/Samples.antt =====
-- src/metrics/bucketizer.rs: a full buffer, and a peak.
use vpsiner.Prelude.{
  ℕ, ◌≡◌, ◌↔◌, ◌<◌, ◌^◌, ◌*◌, ◌/◌, refl, String, Bool, true, false, List, [], ◌∷◌, Option, some,
  none, ℤ, pos, negsuc, ◌*ℤ◌, ◌+ℤ◌, ◌-ℤ◌, ◌≤ℤ◌, ◌<ℤ◌, arith, int_laws, All, keep, eq_ℤ, is_some,
  map, length, if◌then◌else◌,
}
use vpsiner.Metrics.Bucketizer.{
  RawSample, SampleBuffer, MaxBucketizer, push_sample, is_stale_sample, collect_max, in_window,
}
use vpsiner.Metrics.Bucketizer.Samples.{IsBuffer, IsPeak, push_sample-IsBuffer, collect_max-IsPeak}

-- Three raw samples of a capacity of two.
abbrev raw : ℕ → ℕ → RawSample
raw ts value = record { ts = pos ts; value = value }

abbrev full_buffer : SampleBuffer
full_buffer = record { capacity = 2; samples = raw 1000 4 ∷ raw 2000 9 ∷ [] }

full_buffer-IsBuffer : IsBuffer full_buffer
full_buffer-IsBuffer = record { ordered = ((omega arith, tt), (tt, tt)); bounded = omega arith }

push_sample-IsBuffer_example :
    IsBuffer (push_sample full_buffer (pos 3000) 5)
    × ((push_sample full_buffer (pos 3000) 5).samples ≡ (
        if is_stale_sample (pos 3000) full_buffer.samples
        then raw 1000 4 ∷ raw 2000 9 ∷ []
        else raw 2000 9 ∷ raw 3000 5 ∷ []))
push_sample-IsBuffer_example = push_sample-IsBuffer full_buffer (pos 3000) 5 full_buffer-IsBuffer

abbrev peaks : MaxBucketizer
peaks = record { buffer = full_buffer; bucket_len_ms = 10000 }

collected : collect_max peaks (pos 10000) ≡ some 9
unfolding collect_max vpsiner.Prelude.checked_sub ◌-ℤ◌
collected = refl

collect_max-IsPeak_example :
    IsPeak (in_window (pos 10000 -ℤ pos 10000) (pos 10000)) full_buffer.samples 9
collect_max-IsPeak_example = collect_max-IsPeak peaks (pos 10000) 9 collected
