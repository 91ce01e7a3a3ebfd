-- ===== src/Metrics/Bucket/Aligned.antt =====
-- src/metrics/downsampling.rs: a timestamp has one bucket, the one whose window holds it.
use vpsiner.Prelude.{
  ℕ, ◌+◌, ◌*◌, ◌^◌, ◌<◌, ◌≡◌, sym, ◌∙◌, ◌↔◌, ℤ, pos, neg, ◌*ℤ◌, ◌+ℤ◌, ◌≤ℤ◌, ◌<ℤ◌, div_euclid,
  pos_part, neg_part, arith, int_laws, eq_of_parts, ap, Bool-cases, inl, inr, leb_ℤ, leb_ℤ_iff,
}
use vpsiner.Metrics.Bucket.{bucket_end}
use vpsiner.Metrics.Bucket.Window.{IsTime, ceiling_bounds, bucket_end-ceiling}

*ℤ-pos_parts :
    (k : ℤ) (b : ℕ)
    → pos_part (k *ℤ pos b) + neg_part k * b ≡ neg_part (k *ℤ pos b) + pos_part k * b
unfolding ◌*ℤ◌
*ℤ-pos_parts k b = ground arith

-- Two multiples of `b` less than `b` apart are the same multiple.
mul_close : (x y b : ℕ) → x * b < y * b + b → y * b < x * b + b → x ≡ y
mul_close x y b h k = grind arith

close_multiples :
    (j k : ℤ) (b : ℕ)
    → j *ℤ pos b <ℤ k *ℤ pos b +ℤ pos b
    → k *ℤ pos b <ℤ j *ℤ pos b +ℤ pos b
    → j ≡ k
close_multiples j k b h l = eq_of_parts j k (
    mul_close (pos_part j + neg_part k) (pos_part k + neg_part j) b
      (omega (int_laws, *ℤ-pos_parts j b, *ℤ-pos_parts k b))
      (omega (int_laws, *ℤ-pos_parts j b, *ℤ-pos_parts k b)))

module _ (ts : ℤ) (b : ℕ) (positive : 0 < b) (fits : b < 2 ^ 32) (time : IsTime ts) where
  -- The bucket of a timestamp ends at a multiple of the length, and its window
  -- `(end - length, end]` holds the timestamp.
  pub bucket_end_window :
      (k : ℤ) × (bucket_end ts b ≡ k *ℤ pos b)
      × (ts ≤ℤ bucket_end ts b)
      × (bucket_end ts b <ℤ ts +ℤ pos b)
  bucket_end_window =
      let e = bucket_end-ceiling ts b positive fits time in
      let (lo, hi) = ceiling_bounds ts b positive in
      (neg (div_euclid (neg ts) b), e, rw e lo, rw e hi)

  -- For a length from 1 to 2^32 - 1 and a time within 2^61 milliseconds of the epoch, a multiple
  -- of the length is the bucket end of the time exactly when its window `(end - length, end]`
  -- holds the time.
  pub bucket_end_unique :
      (k : ℤ) → (bucket_end ts b ≡ k *ℤ pos b) ↔ ((ts ≤ℤ k *ℤ pos b) × (k *ℤ pos b <ℤ ts +ℤ pos b))
  bucket_end_unique k =
      let (j, e, lo, hi) = bucket_end_window in
      let above : ts ≤ℤ j *ℤ pos b = rw e at lo in
      let below : j *ℤ pos b <ℤ ts +ℤ pos b = rw e at hi in
      (
        λ p. (rw (← p) lo, rw (← p) hi),
        λ w. e ∙ ap (λ i. i *ℤ pos b) (close_multiples j k b (omega int_laws) (omega int_laws)),
      )

-- Later timestamps never fall into earlier buckets.
pub bucket_end_mono :
    (a c : ℤ) (b : ℕ)
    → 0 < b
    → b < 2 ^ 32
    → IsTime a
    → IsTime c
    → a ≤ℤ c
    → bucket_end a b ≤ℤ bucket_end c b
bucket_end_mono a c b positive fits ta tc h =
    let (j, e, lo, hi) = bucket_end_window a b positive fits ta in
    let (k, f, lo', hi') = bucket_end_window c b positive fits tc in
    elim (Bool-cases (leb_ℤ (bucket_end a b) (bucket_end c b))) [
      | inl ordered ↦ (leb_ℤ_iff (bucket_end a b) (bucket_end c b)).0 ordered
      | inr not_ordered ↦
          let before : bucket_end c b <ℤ bucket_end a b = ground arith in
          let same : bucket_end a b ≡ k *ℤ pos b =
            (bucket_end_unique a b positive fits ta k).1
              (rw (← f) (omega int_laws), rw (← f) (omega int_laws)) in
          let equal : bucket_end a b ≡ bucket_end c b = same ∙ sym f in rw equal (omega arith)
    ]
