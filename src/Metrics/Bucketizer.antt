-- ===== src/Metrics/Bucketizer.antt =====
-- src/metrics/bucketizer.rs: the buffer of raw samples and the bucketizer of peaks. The two that
-- interpolate compute in floating point, and are not modelled.
pub mod Samples
use vpsiner.Prelude.{
  ℕ, suc, ◌+◌, ◌-◌, ◌*◌, ◌/◌, ◌%◌, ◌^◌, ◌≤◌, ◌<◌, ◌≡◌, refl, sym, ap, ◌∙◌, Bool, true, false, ◌&&◌,
  List, [], ◌∷◌, ◌++◌, Option, none, some, last?, length, length-append, drop, All, All-append, max,
  keep, map, ◌>>=◌, ℤ, pos, ◌<ℤ◌, ltb_ℤ, leb_ℤ, checked_sub, if◌then◌else◌, ltb, ◌==◌, Bool-cases,
  Option-cases, inl, inr, arith,
}

abbrev pub buffered_buckets : ℕ
buffered_buckets = 8

-- `interval_ms` is at least 1, so that nothing divides by 0. The cast to `usize` keeps 64 bits.
unfoldable pub buffer_capacity : ℕ → ℕ → ℕ
buffer_capacity collect_interval_ms bucket_len_ms =
    max (buffered_buckets * bucket_len_ms / max collect_interval_ms 1) 4 % 2 ^ 64

pub record RawSample : Type 0 where
  pub ts : ℤ
  pub value : ℕ

pub record SampleBuffer : Type 0 where
  pub capacity : ℕ
  pub samples : List RawSample

abbrev pub SampleBuffer_new : ℕ → SampleBuffer
SampleBuffer_new capacity = record { capacity = capacity; samples = [] }

-- `while self.samples.len() > self.capacity { pop_front }`
unfoldable pub pop_surplus : ℕ → List RawSample → List RawSample
pop_surplus capacity [] = []
pop_surplus capacity (s ∷ rest) =
    let popped = pop_surplus capacity rest in
    if ltb capacity (length (s ∷ rest)) then popped else s ∷ rest

-- `ts <= last.ts` for the last sample, if there is one.
unfoldable pub is_stale_sample : ℤ → List RawSample → Bool
is_stale_sample ts samples = elim (last? samples) [ none ↦ false | some last ↦ leb_ℤ ts last.ts ]

unfoldable pub push_sample : SampleBuffer → ℤ → ℕ → SampleBuffer
unfolding pop_surplus is_stale_sample
push_sample buffer ts value =
    if buffer.capacity == 0
    then buffer
    else if is_stale_sample ts buffer.samples
    then buffer
    else record buffer {
      samples =
          pop_surplus buffer.capacity (buffer.samples ++ record { ts = ts; value = value } ∷ []);
    }

abbrev pub in_window : ℤ → ℤ → RawSample → Bool
in_window start end s = ltb_ℤ start s.ts && leb_ℤ s.ts end

-- `max` of an iterator.
unfoldable pub max_value : List RawSample → Option ℕ
max_value [] = none
max_value (s ∷ rest) = elim (max_value rest) [ none ↦ some s.value | some m ↦ some (max s.value m) ]

unfoldable pub max_in : SampleBuffer → ℤ → ℤ → Option ℕ
unfolding max_value
max_in buffer start end = max_value (keep (in_window start end) buffer.samples)

pub record MaxBucketizer : Type 0 where
  pub buffer : SampleBuffer
  pub bucket_len_ms : ℕ

-- `i64::try_from(bucket_len_ms).ok()?`
unfoldable pub collect_max : MaxBucketizer → ℤ → Option ℕ
unfolding max_in
collect_max b bucket_end =
    if ltb b.bucket_len_ms (2 ^ 63)
    then checked_sub bucket_end (pos b.bucket_len_ms)
      >>= (λ bucket_start. max_in b.buffer bucket_start bucket_end)
    else none
