-- ===== src/Metrics/Bucket/Window.antt =====
-- src/metrics/downsampling.rs: which bucket a timestamp falls into.
use vpsiner.Prelude.{
  ℕ, suc, ◌+◌, ◌*◌, ◌/◌, ◌^◌, ◌≤◌, ◌<◌, ◌≡◌, ℤ, pos, negsuc, neg, ◌*ℤ◌, ◌+ℤ◌, div_euclid, wrap_i64,
  wrap_i64-id, ◌≤ℤ◌, ◌<ℤ◌, pos_part, neg_part, arith, int_laws, one_part, zero, sub_ℕ,
}
use vpsiner.Metrics.Bucket.{bucket_end}

-- Times and lengths at which no intermediate result leaves 64 bits: 2^61 milliseconds are far
-- more than any clock reads.
pub record IsTime (ts : ℤ) : Type 0 where
  pub above : pos_part ts < 2 ^ 61
  pub below : neg_part ts < 2 ^ 61

-- The end of the window, as an integer: the multiple of `b` at or above `ts`.
abbrev pub ceiling : ℤ → ℕ → ℤ
ceiling ts b = neg (div_euclid (neg ts) b) *ℤ pos b

div_bounds : (n b : ℕ) → 0 < b → (n / b * b ≤ n) × (n < n / b * b + b)
div_bounds n b h = omega arith

zero-div : (b : ℕ) → 0 / b ≡ 0
zero-div b = omega arith

-- The three cases of the sign.
ceiling-pos : (n b : ℕ) → ceiling (pos (suc n)) b ≡ pos (suc (n / b) * b)
unfolding neg div_euclid ◌*ℤ◌
ceiling-pos n b = ground arith

ceiling-zero : (b : ℕ) → ceiling (pos 0) b ≡ pos 0
unfolding neg div_euclid ◌*ℤ◌
ceiling-zero b = ground (arith, zero-div b)

ceiling-negsuc : (n b : ℕ) → ceiling (negsuc n) b ≡ sub_ℕ 0 (suc n / b * b)
unfolding neg div_euclid ◌*ℤ◌
ceiling-negsuc n b = ground arith

-- The window `(end - b, end]` holds the timestamp.
pub ceiling_bounds : (ts : ℤ) (b : ℕ) → 0 < b → (ts ≤ℤ ceiling ts b) × (ceiling ts b <ℤ ts +ℤ pos b)
unfolding ◌+ℤ◌
ceiling_bounds (pos zero) b h = rw ceiling-zero (ground arith)
ceiling_bounds (pos (suc n)) b h = rw ceiling-pos (ground (arith, div_bounds n b h))
ceiling_bounds (negsuc n) b h = rw ceiling-negsuc (ground (arith, div_bounds (suc n) b h))

div_euclid_parts :
    (a : ℤ) (b : ℕ)
    → 0 < b
    → (pos_part (div_euclid a b) ≤ pos_part a) × (neg_part (div_euclid a b) ≤ neg_part a)
unfolding div_euclid
div_euclid_parts (pos n) b h = omega arith
div_euclid_parts (negsuc n) b h = omega arith

-- No intermediate result wraps around.
pub bucket_end-ceiling :
    (ts : ℤ) (b : ℕ) → 0 < b → b < 2 ^ 32 → IsTime ts → bucket_end ts b ≡ ceiling ts b
unfolding bucket_end
bucket_end-ceiling ts b h k t =
    let (p, q) = div_euclid_parts (neg ts) b h in
    let (lo, hi) = ceiling_bounds ts b h in
    let e : wrap_i64 (neg ts) ≡ neg ts = wrap_i64-id (neg ts) (omega int_laws) in
    let f : wrap_i64 (neg (div_euclid (neg ts) b)) ≡ neg (div_euclid (neg ts) b) =
      wrap_i64-id _ (omega int_laws) in
    rw (e, f) (wrap_i64-id _ (omega (int_laws, one_part (ceiling ts b))))
