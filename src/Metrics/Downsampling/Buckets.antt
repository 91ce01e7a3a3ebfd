-- ===== src/Metrics/Downsampling/Buckets.antt =====
-- src/metrics/downsampling.rs: the loop over the samples against a specification that looks at one
-- bucket at a time.
use mathlib.Core.List.{foldl, append_assoc, append-nil}
use vpsiner.Prelude.{
  ℕ, ◌^◌, ◌<◌, ◌≡◌, refl, ◌∙◌, true, false, List, [], ◌∷◌, ◌++◌, Option, none, ℤ, negsuc, ◌≤ℤ◌,
  ◌<ℤ◌, eq_ℤ, eq_ℤ_iff, if◌then◌else◌, keep, All, arith, Bool-cases, inl, inr, ◌⊎◌,
}
use vpsiner.Model.Metrics.{MetricsResolution, HostSample, ContainerSample, bucket_ms}
use vpsiner.Metrics.Bucket.{bucket_end}
use vpsiner.Metrics.Bucket.Window.{IsTime}
use vpsiner.Metrics.Bucket.Aligned.{bucket_end_window, bucket_end_mono}
use vpsiner.Metrics.Bucket.Closed.{IsSorted, bucket_ms_bounds}
use vpsiner.Metrics.Downsampling.{
  downsample_loop, option_to_list, i64_min, HostGauges, HostGauges_default, HostGauges_add,
  HostGauges_finish, ContainerGauges, ContainerGauges_default, ContainerGauges_add,
  ContainerGauges_finish, downsample_host, downsample_container, is_discarded,
}

-- Every later value is greater.
abbrev pub IsAscending : List ℤ → Type 0
IsAscending [] = Unit
IsAscending (x ∷ xs) = All (λ y. x <ℤ y) xs × IsAscending xs

module _ {S G : Type 0} (ts : S → ℤ) (default : G) (add : G → S → G) (finish : G → ℤ → Option S)
    (bucket_len : ℕ) where
  abbrev pub end_of : S → ℤ
  end_of s = bucket_end (ts s) bucket_len

  -- The samples of the bucket that ends at `e`.
  abbrev pub group : ℤ → List S → List S
  group e = keep (λ s. eq_ℤ (end_of s) e)

  -- The ends of the buckets that hold samples, past the bucket `cur`.
  abbrev pub ends : ℤ → List S → List ℤ
  ends cur [] = []
  ends cur (s ∷ rest) =
      let more = end_of s ∷ ends (end_of s) rest in
      let same = ends cur rest in if eq_ℤ (end_of s) cur then same else more

  -- Each bucket by itself: what `finish` makes of all of its samples.
  abbrev pub per_bucket : List S → List ℤ → List S
  per_bucket samples [] = []
  per_bucket samples (e ∷ es) =
      option_to_list (finish (foldl add default (group e samples)) e) ++ per_bucket samples es

  -- Samples in the order of their buckets, none before `cur`.
  abbrev InOrder : ℤ → List S → Type 0
  InOrder cur samples = All (λ s. cur ≤ℤ end_of s) samples × IsSorted end_of samples

  past :
      (c d : ℤ) (xs : List S) → All (λ s. c ≤ℤ end_of s) xs → d <ℤ c → All (λ s. d ≤ℤ end_of s) xs
  past c d [] a h = tt
  past c d (s ∷ xs) a h = (omega arith, past c d xs a.1 h)

  group_before : (c d : ℤ) (xs : List S) → All (λ s. c ≤ℤ end_of s) xs → d <ℤ c → group d xs ≡ []
  group_before c d [] a h = refl
  group_before c d (s ∷ xs) a h =
      let other : eq_ℤ (end_of s) d ≡ false = ground arith in rw other (group_before c d xs a.1 h)

  split_eq : (a b : ℤ) → a ≤ℤ b → (eq_ℤ b a ≡ true) ⊎ ((eq_ℤ b a ≡ false) × (a <ℤ b))
  split_eq a b h = elim (Bool-cases (eq_ℤ b a)) [
    | inl same ↦ inl same
    | inr other ↦ inr (other, ground arith)
  ]

  weaken : (c d : ℤ) (es : List ℤ) → c ≤ℤ d → All (λ e. d <ℤ e) es → All (λ e. c <ℤ e) es
  weaken c d [] h a = tt
  weaken c d (e ∷ es) h a = (omega arith, weaken c d es h a.1)

  ends_past :
      (cur : ℤ) (xs : List S)
      → InOrder cur xs
      → All (λ e. cur <ℤ e) (ends cur xs) × IsAscending (ends cur xs)
  ends_past cur [] h = (tt, tt)
  ends_past cur (s ∷ xs) (h, o) = elim (split_eq cur (end_of s) h.0) [
    | inl same ↦ rw same (ends_past cur xs (h.1, o.1))
    | inr (other, later) ↦
        let (a, b) = ends_past (end_of s) xs (o.0, o.1) in
        rw other ((later, weaken cur (end_of s) (ends (end_of s) xs) h.0 a), (a, b))
  ]

  -- A sample is not in the buckets behind its own.
  per_bucket_skip :
      (s : S) (xs : List S) (es : List ℤ)
      → All (λ e. end_of s <ℤ e) es
      → per_bucket (s ∷ xs) es ≡ per_bucket xs es
  per_bucket_skip s xs [] a = refl
  per_bucket_skip s xs (e ∷ es) a =
      let other : eq_ℤ (end_of s) e ≡ false = ground arith in
      rw (other, per_bucket_skip s xs es a.1)

  loop-per_bucket :
      (points : List S) (cur : ℤ) (g : G) (xs : List S)
      → InOrder cur xs
      → downsample_loop ts default add finish bucket_len points cur g xs
        ≡ points
          ++ (option_to_list (finish (foldl add g (group cur xs)) cur)
              ++ per_bucket xs (ends cur xs))
  unfolding downsample_loop
  loop-per_bucket points cur g [] h = rw append-nil
  loop-per_bucket points cur g (s ∷ xs) (h, o) = elim (split_eq cur (end_of s) h.0) [
    | inl same ↦
        let rest : InOrder cur xs = (h.1, o.1) in
        let at_cur : end_of s ≡ cur = (eq_ℤ_iff (end_of s) cur).0 same in
        let behind : All (λ e. end_of s <ℤ e) (ends cur xs) =
          weaken (end_of s) cur (ends cur xs) (ground arith) (ends_past cur xs rest).0 in
        rw (same, per_bucket_skip s xs (ends cur xs) behind)
          (loop-per_bucket points cur (add g s) xs rest)
    | inr (other, later) ↦
        let behind = (ends_past (end_of s) xs (o.0, o.1)).0 in
        let self : eq_ℤ (end_of s) (end_of s) ≡ true = (eq_ℤ_iff (end_of s) (end_of s)).1 refl in
        rw
          (
            other,
            group_before (end_of s) cur xs o.0 later,
            self,
            per_bucket_skip s xs (ends (end_of s) xs) behind,
          )
          (loop-per_bucket (points ++ option_to_list (finish g cur)) (end_of s) (add default s) xs o
            ∙ append_assoc points (option_to_list (finish g cur)) _)
  ]

  module _ (positive : 0 < bucket_len) (fits : bucket_len < 2 ^ 32) where
    ends-IsSorted :
        (xs : List S) → All (λ s. IsTime (ts s)) xs → IsSorted ts xs → IsSorted end_of xs
    ends-IsSorted [] t o = tt
    ends-IsSorted (s ∷ xs) t o = (first xs t.1 o.0, ends-IsSorted xs t.1 o.1)
      where
        first :
            (ys : List S)
            → All (λ y. IsTime (ts y)) ys
            → All (λ y. ts s ≤ℤ ts y) ys
            → All (λ y. end_of s ≤ℤ end_of y) ys
        first [] a b = tt
        first (y ∷ ys) a b =
            (bucket_end_mono (ts s) (ts y) bucket_len positive fits t.0 a.0 b.0, first ys a.1 b.1)

    -- The bucket that the loop starts with lies before every sample.
    ends_above :
        (xs : List S) → All (λ s. IsTime (ts s)) xs → All (λ s. negsuc (2 ^ 62) ≤ℤ end_of s) xs
    ends_above [] t = tt
    ends_above (s ∷ xs) t =
        let (k, e, lo, hi) = bucket_end_window (ts s) bucket_len positive fits t.0 in
        (omega (arith, t.0.below), ends_above xs t.1)

    loop_eq_per_bucket :
        (samples : List S)
        → finish default i64_min ≡ none
        → IsSorted ts samples
        → All (λ s. IsTime (ts s)) samples
        → (downsample_loop ts default add finish bucket_len [] i64_min default samples
            ≡ per_bucket samples (ends i64_min samples))
          × IsAscending (ends i64_min samples)
    loop_eq_per_bucket samples nothing o t =
        let above = ends_above samples t in
        let order : InOrder i64_min samples =
          (past (negsuc (2 ^ 62)) i64_min samples above (omega arith), ends-IsSorted samples t o) in
        let none_first = group_before (negsuc (2 ^ 62)) i64_min samples above (omega arith) in
        let e = loop-per_bucket [] i64_min default samples order in
        (e ∙ rw (none_first, nothing) refl, (ends_past i64_min samples order).1)

module _ (r : MetricsResolution) (max_gap_pct : ℕ) where
  abbrev pub finish_host : HostGauges → ℤ → Option HostSample
  finish_host g ts = HostGauges_finish g ts (bucket_ms r) max_gap_pct

  abbrev pub finish_container : ContainerGauges → ℤ → Option ContainerSample
  finish_container g ts = ContainerGauges_finish g ts (bucket_ms r) max_gap_pct

  abbrev pub host_ends : List HostSample → List ℤ
  host_ends = ends (λ s. s.ts) HostGauges_default HostGauges_add finish_host (bucket_ms r) i64_min

  abbrev pub host_buckets : List HostSample → List ℤ → List HostSample
  host_buckets = per_bucket (λ s. s.ts) HostGauges_default HostGauges_add finish_host (bucket_ms r)

  abbrev pub container_ends : List ContainerSample → List ℤ
  container_ends =
      ends (λ s. s.ts) ContainerGauges_default ContainerGauges_add finish_container (bucket_ms r)
        i64_min

  abbrev pub container_buckets : List ContainerSample → List ℤ → List ContainerSample
  container_buckets =
      per_bucket (λ s. s.ts) ContainerGauges_default ContainerGauges_add finish_container
        (bucket_ms r)

  -- Of host samples ordered by time, with times within 2^61 milliseconds of the epoch, the loop
  -- gives what `finish` makes of all samples of each bucket, one bucket after another, at strictly
  -- ascending bucket ends.
  pub downsample_host-per_bucket :
      (samples : List HostSample)
      → IsSorted (λ s. s.ts) samples
      → All (λ s. IsTime s.ts) samples
      → (downsample_host samples r max_gap_pct ≡ host_buckets samples (host_ends samples))
        × IsAscending (host_ends samples)
  unfolding downsample_host HostGauges_finish is_discarded
  downsample_host-per_bucket samples o t =
      let (positive, fits) = bucket_ms_bounds r in
      loop_eq_per_bucket (λ s. s.ts) HostGauges_default HostGauges_add finish_host (bucket_ms r)
        positive fits samples refl o t

  -- Of the samples of one container ordered by time, with times within 2^61 milliseconds of the
  -- epoch, the loop gives what `finish` makes of all samples of each bucket, one bucket after
  -- another, at strictly ascending bucket ends.
  pub downsample_container-per_bucket :
      (samples : List ContainerSample)
      → IsSorted (λ s. s.ts) samples
      → All (λ s. IsTime s.ts) samples
      → (downsample_container samples r max_gap_pct
          ≡ container_buckets samples (container_ends samples))
        × IsAscending (container_ends samples)
  unfolding downsample_container ContainerGauges_finish is_discarded
  downsample_container-per_bucket samples o t =
      let (positive, fits) = bucket_ms_bounds r in
      loop_eq_per_bucket (λ s. s.ts) ContainerGauges_default ContainerGauges_add finish_container
        (bucket_ms r) positive fits samples refl o t
