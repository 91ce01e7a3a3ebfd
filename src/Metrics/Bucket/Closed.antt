-- ===== src/Metrics/Bucket/Closed.antt =====
-- src/metrics/rollup.rs: the rows that a closed bucket is rolled up from.
use vpsiner.Prelude.{
  ℕ, suc, ◌+◌, ◌-◌, ◌^◌, ◌≤◌, ◌<◌, ◌≡◌, ◌≢◌, refl, sym, ap, Bool, true, false, ◌&&◌, List, [], ◌∷◌,
  some, ℤ, pos, ◌+ℤ◌, ◌-ℤ◌, ◌≤ℤ◌, ◌<ℤ◌, pos_part, neg_part, arith, int_laws, Bool-cases, &&_both,
  leb_ℤ_iff, ◌∙◌, Bool_ext, inl, inr, +ℤ_parts, eq_ℤ, eq_ℤ_iff, ltb_ℤ, leb_ℤ, leb, take, drop, keep,
  All, wrap_i64, wrap_i64-id, one_part,
}
use vpsiner.Model.Metrics.{MetricsResolution, TimeRange, bucket_ms}
use vpsiner.Metrics.Bucket.{
  bucket_end, closed_bucket, source_range, partition_point, slice_by_range,
}
use vpsiner.Metrics.Bucket.Window.{IsTime}
use vpsiner.Metrics.Bucket.Aligned.{bucket_end_window, bucket_end_unique}

-- In the order of their timestamps; equal ones may follow one another.
abbrev pub IsSorted : {A : Type 0} → (A → ℤ) → List A → Type 0
IsSorted ts [] = Unit
IsSorted ts (x ∷ xs) = All (λ y. ts x ≤ℤ ts y) xs × IsSorted ts xs

module _ {A : Type 0} (ts : A → ℤ) (range : TimeRange) where
  abbrev early : A → Bool
  early s = ltb_ℤ (ts s) range.from

  abbrev upto : A → Bool
  upto s = leb_ℤ (ts s) range.to

  abbrev inside : A → Bool
  inside s = leb_ℤ range.from (ts s) && leb_ℤ (ts s) range.to

  keep_nothing :
      (xs : List A) (x : A)
      → ltb_ℤ range.to (ts x) ≡ true
      → All (λ y. ts x ≤ℤ ts y) xs
      → keep inside xs ≡ []
  keep_nothing [] x h a = refl
  keep_nothing (y ∷ xs) x h a = ground (arith, keep_nothing xs x h a.1)

  -- From the first element on that lies in the range.
  take-inside :
      (xs : List A)
      → IsSorted ts xs
      → All (λ y. range.from ≤ℤ ts y) xs
      → take (partition_point upto xs) xs ≡ keep inside xs
  unfolding partition_point
  take-inside [] s a = refl
  take-inside (x ∷ xs) s a = ground (arith, take-inside xs s.1 a.1, keep_nothing xs x)

  All-from :
      (x : A) (xs : List A)
      → range.from ≤ℤ ts x
      → All (λ y. ts x ≤ℤ ts y) xs
      → All (λ y. range.from ≤ℤ ts y) xs
  All-from x [] h a = tt
  All-from x (y ∷ xs) h a = (omega arith, All-from x xs h a.1)

  sub_suc : (a b : ℕ) → suc a - suc b ≡ a - b
  sub_suc a b = omega arith

  sub_zero : (a : ℕ) → a - 0 ≡ a
  sub_zero a = omega arith

  from_first :
      (xs : List A)
      → IsSorted ts xs
      → range.from ≤ℤ range.to +ℤ pos 1
      → (partition_point early xs ≤ partition_point upto xs)
        × (take
              (partition_point upto xs - partition_point early xs)
              (drop (partition_point early xs) xs)
            ≡ keep inside xs)
  unfolding partition_point
  from_first [] s r = (omega arith, refl)
  from_first (x ∷ xs) s r = elim (Bool-cases (early x)) [
    | inl before ↦
        let (order, same) = from_first xs s.1 r in
        let upto_x : upto x ≡ true = ground (arith, +ℤ_parts range.to (pos 1)) in
        let outside : leb_ℤ range.from (ts x) ≡ false = ground arith in
        rw (before, upto_x, outside, sub_suc) (omega arith, same)
    | inr after ↦
        let begun : range.from ≤ℤ ts x = ground arith in
        rw (after, sub_zero) (omega arith, take-inside (x ∷ xs) s (begun, All-from x xs begun s.0))
  ]

  -- On rows in order, the slice is defined and holds exactly the rows of the range.
  pub slice_by_range-keep :
      (samples : List A)
      → IsSorted ts samples
      → range.from ≤ℤ range.to +ℤ pos 1
      → slice_by_range samples range ts ≡ some (keep inside samples)
  unfolding slice_by_range
  slice_by_range-keep samples s r =
      let (order, same) = from_first samples s r in
      let defined : leb (partition_point early samples) (partition_point upto samples) ≡ true =
        ground arith in
      rw (defined, same)

-- The lengths of the resolutions lie in the range of the lemmas on windows.
pub bucket_ms_bounds : (r : MetricsResolution) → (0 < bucket_ms r) × (bucket_ms r < 2 ^ 32)
bucket_ms_bounds MetricsResolution.ten_seconds = omega arith
bucket_ms_bounds _ = omega arith

module _ (previous_ts new_ts : ℤ) (r : MetricsResolution) (tp : IsTime previous_ts)
    (tn : IsTime new_ts) where
  pub closed_bucket-window :
      (closed : ℤ)
      → closed_bucket previous_ts new_ts r ≡ some closed
      → (closed ≡ bucket_end previous_ts (bucket_ms r)) × (bucket_end new_ts (bucket_ms r) ≢ closed)
  unfolding closed_bucket
  closed_bucket-window closed h =
      ground
        (arith, eq_ℤ_iff (bucket_end new_ts (bucket_ms r)) (bucket_end previous_ts (bucket_ms r)))

-- The first instant of the source range, with no wrapping.
source_range-from :
    (closed : ℤ) (r : MetricsResolution)
    → pos_part closed < 2 ^ 62 + 2 ^ 32
    → neg_part closed < 2 ^ 62 + 2 ^ 32
    → (source_range closed r).from ≡ closed -ℤ pos (bucket_ms r) +ℤ pos 1
unfolding source_range
source_range-from closed r hi lo =
    let (positive, fits) = bucket_ms_bounds r in
    let start = closed -ℤ pos (bucket_ms r) in
    let e : wrap_i64 start ≡ start = wrap_i64-id start (omega (int_laws, one_part start)) in
    rw e
      (wrap_i64-id (start +ℤ pos 1) (omega (int_laws, one_part start, one_part (start +ℤ pos 1))))

source_range-to : (closed : ℤ) (r : MetricsResolution) → (source_range closed r).to ≡ closed
unfolding source_range
source_range-to closed r = refl

module _ {A : Type 0} (at : A → ℤ) (previous_ts : ℤ) (r : MetricsResolution)
    (tp : IsTime previous_ts) where
  abbrev closed_end : ℤ
  closed_end = bucket_end previous_ts (bucket_ms r)

  closed_end_near :
      (pos_part closed_end < 2 ^ 62 + 2 ^ 32) × (neg_part closed_end < 2 ^ 62 + 2 ^ 32)
  closed_end_near =
      let (positive, fits) = bucket_ms_bounds r in
      let (k, e, lo, hi) = bucket_end_window previous_ts (bucket_ms r) positive fits tp in
      omega (int_laws, one_part closed_end)

  -- A row lies in the source range of a bucket exactly when the bucket is its own.
  inside-source_range :
      (x : A)
      → IsTime (at x)
      → inside at (source_range closed_end r) x ≡ eq_ℤ (bucket_end (at x) (bucket_ms r)) closed_end
  inside-source_range x t =
      let (positive, fits) = bucket_ms_bounds r in
      let (k, e, lo, hi) = bucket_end_window previous_ts (bucket_ms r) positive fits tp in
      let (only, back) = bucket_end_unique (at x) (bucket_ms r) positive fits t k in
      let (near_hi, near_lo) = closed_end_near in
      let first = source_range-from closed_end r near_hi near_lo in
      let last = source_range-to closed_end r in
      let range = source_range closed_end r in
      let own : range.from ≤ℤ at x
          → at x ≤ℤ range.to
          → bucket_end (at x) (bucket_ms r) ≡ closed_end =
        λ a c.
          let a' : closed_end -ℤ pos (bucket_ms r) +ℤ pos 1 ≤ℤ at x = rw first at a in
          let c' : at x ≤ℤ closed_end = rw last at c in
          back (rw (← e) c', rw (← e) (omega int_laws)) ∙ sym e in
      let held : bucket_end (at x) (bucket_ms r) ≡ closed_end
          → (range.from ≤ℤ at x) × (at x ≤ℤ range.to) =
        λ p.
          let (c, a) = only (p ∙ e) in
          let a' : closed_end <ℤ at x +ℤ pos (bucket_ms r) = rw (← e) at a in
          let c' : at x ≤ℤ closed_end = rw (← e) at c in (rw first (omega int_laws), rw last c') in
      Bool_ext _ _
        (λ h.
          let (a, c) = &&_both (leb_ℤ range.from (at x)) (leb_ℤ (at x) range.to) h in
          (eq_ℤ_iff (bucket_end (at x) (bucket_ms r)) closed_end).1
            (own ((leb_ℤ_iff range.from (at x)).0 a) ((leb_ℤ_iff (at x) range.to).0 c)))
        (λ h.
          let (a, c) = held ((eq_ℤ_iff (bucket_end (at x) (bucket_ms r)) closed_end).0 h) in
          rw ((leb_ℤ_iff range.from (at x)).1 a, (leb_ℤ_iff (at x) range.to).1 c))

  keep-inside-source_range :
      (xs : List A)
      → All (λ x. IsTime (at x)) xs
      → keep (inside at (source_range closed_end r)) xs
        ≡ keep (λ x. eq_ℤ (bucket_end (at x) (bucket_ms r)) closed_end) xs
  keep-inside-source_range [] h = refl
  keep-inside-source_range (x ∷ xs) h =
      rw (inside-source_range x h.0, keep-inside-source_range xs h.1)

  -- Of rows ordered by time, with times within 2^61 milliseconds of the epoch, the slice by the
  -- source range of the bucket of a timestamp is defined and holds exactly the rows whose own
  -- bucket that is.
  pub slice-closed :
      (samples : List A)
      → IsSorted at samples
      → All (λ x. IsTime (at x)) samples
      → slice_by_range samples (source_range (bucket_end previous_ts (bucket_ms r)) r) at
        ≡ some (
            keep
              (λ x. eq_ℤ (bucket_end (at x) (bucket_ms r)) (bucket_end previous_ts (bucket_ms r)))
              samples)
  slice-closed samples s h =
      let (positive, fits) = bucket_ms_bounds r in
      let (near_hi, near_lo) = closed_end_near in
      let first = source_range-from closed_end r near_hi near_lo in
      let last = source_range-to closed_end r in
      slice_by_range-keep at (source_range closed_end r) samples s
        (rw (first, last) (omega int_laws))
      ∙ ap some (keep-inside-source_range samples h)
