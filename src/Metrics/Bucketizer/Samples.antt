-- ===== src/Metrics/Bucketizer/Samples.antt =====
-- src/metrics/bucketizer.rs: what the buffer holds, and the peak of a bucket.
use vpsiner.Prelude.{
  ℕ, zero, leb, subst, ◌||◌, ◌⊎◌, ◌-ℤ◌, suc, ◌-◌, ◌≤◌, ◌≡◌, refl, ap, ◌∙◌, Bool, true, false, List,
  [], ◌∷◌, ◌++◌, none, some, length, length-append, drop, All, All-append, max, keep, ℤ, pos, ◌<ℤ◌,
  checked_sub, if◌then◌else◌, ltb, ◌==◌, Bool-cases, Option-cases, inl, inr, arith,
}
use vpsiner.Metrics.Bucketizer.{
  RawSample, SampleBuffer, pop_surplus, is_stale_sample, push_sample, in_window, max_value, max_in,
  MaxBucketizer, collect_max,
}

-- Times in strictly ascending order.
abbrev pub IsOrdered : List RawSample → Type 0
IsOrdered [] = Unit
IsOrdered (s ∷ rest) = All (λ t. s.ts <ℤ t.ts) rest × IsOrdered rest

pub record IsBuffer (b : SampleBuffer) : Type 0 where
  pub ordered : IsOrdered b.samples
  pub bounded : length b.samples ≤ b.capacity

pop_surplus-IsOrdered :
    (capacity : ℕ) (samples : List RawSample)
    → IsOrdered samples
    → IsOrdered (pop_surplus capacity samples)
unfolding pop_surplus
pop_surplus-IsOrdered capacity [] h = h
pop_surplus-IsOrdered capacity (s ∷ rest) h =
    ground (arith, pop_surplus-IsOrdered capacity rest h.1, h)

pop_surplus-bounded :
    (capacity : ℕ) (samples : List RawSample) → length (pop_surplus capacity samples) ≤ capacity
unfolding pop_surplus
pop_surplus-bounded capacity [] = omega arith
pop_surplus-bounded capacity (s ∷ rest) = ground (arith, pop_surplus-bounded capacity rest)

All-end :
    (P : RawSample → Type 0) (xs : List RawSample) (x : RawSample) → All P (xs ++ x ∷ []) → P x
All-end P [] x h = h.0
All-end P (y ∷ ys) x h = All-end P ys x h.1

append-IsOrdered :
    (samples : List RawSample) (x : RawSample)
    → IsOrdered samples
    → is_stale_sample x.ts samples ≡ false
    → IsOrdered (samples ++ x ∷ [])
unfolding is_stale_sample
append-IsOrdered [] x h k = (tt, tt)
append-IsOrdered (s ∷ []) x h k = ((ground arith, tt), (tt, tt))
append-IsOrdered (s ∷ t ∷ rest) x h k =
    let more = append-IsOrdered (t ∷ rest) x h.1 k in
    (
      All-append _ (t ∷ rest) (x ∷ []) h.0
          (omega (arith, h.0.0, All-end (λ u. t.ts <ℤ u.ts) rest x more.0), tt),
      more,
    )

drop_nil : (n : ℕ) → [] ≡ drop {A = RawSample} n []
drop_nil zero = refl
drop_nil (suc n) = refl

pop_surplus-drop :
    (capacity : ℕ) (samples : List RawSample)
    → pop_surplus capacity samples ≡ drop (length samples - capacity) samples
unfolding pop_surplus
pop_surplus-drop capacity [] = drop_nil (0 - capacity)
pop_surplus-drop capacity (s ∷ rest) = elim (Bool-cases (ltb capacity (length (s ∷ rest)))) [
  | inl e ↦
      let less : length (s ∷ rest) - capacity ≡ suc (length rest - capacity) = ground arith in
      rw (e, less, pop_surplus) (pop_surplus-drop capacity rest)
  | inr e ↦
      let none_over : length (s ∷ rest) - capacity ≡ 0 = ground arith in
      rw (e, none_over, pop_surplus) refl
]

-- A push into a buffer whose times ascend and which is within its capacity keeps both. A sample
-- later than the last is taken, and the oldest that no longer fit are given up; any other changes
-- nothing, nor does a push into a buffer of capacity 0.
pub push_sample-IsBuffer :
    (b : SampleBuffer) (ts : ℤ) (value : ℕ)
    → IsBuffer b
    → IsBuffer (push_sample b ts value)
      × ((push_sample b ts value).samples ≡ (
          if b.capacity == 0 || is_stale_sample ts b.samples
          then b.samples
          else drop
              (suc (length b.samples) - b.capacity)
              (b.samples ++ record { ts = ts; value = value } ∷ [])))
unfolding push_sample
push_sample-IsBuffer b ts value v = elim (Bool-cases (b.capacity == 0)) [
  | inl e ↦ rw (e, push_sample) (v, refl)
  | inr e ↦ elim (Bool-cases (is_stale_sample ts b.samples)) [
    | inl f ↦ rw (e, f, push_sample) (v, refl)
    | inr f ↦
        let x : RawSample = record { ts = ts; value = value } in
        let more = b.samples ++ x ∷ [] in
        let long : length more ≡ suc (length b.samples) =
          omega (arith, length-append b.samples (x ∷ [])) in
        rw (e, f, push_sample)
          (
            record {
              ordered =
                  pop_surplus-IsOrdered b.capacity more (append-IsOrdered b.samples x v.ordered f);
              bounded = pop_surplus-bounded b.capacity more;
            },
            pop_surplus-drop b.capacity more ∙ ap (λ n. drop (n - b.capacity) more) long,
          )
  ]
]

abbrev pub Any : (RawSample → Type 0) → List RawSample → Type 0
Any P [] = ⊥
Any P (s ∷ rest) = P s ⊎ Any P rest

-- A greatest value of the samples that pass a test.
abbrev pub IsPeak : (RawSample → Bool) → List RawSample → ℕ → Type 0
IsPeak p samples m =
    All (λ s. (if p s then s.value else 0) ≤ m) samples
    × Any (λ s. (p s ≡ true) × (s.value ≡ m)) samples

max_value-none :
    (p : RawSample → Bool) (samples : List RawSample)
    → max_value (keep p samples) ≡ none
    → All (λ s. p s ≡ false) samples
unfolding max_value
max_value-none p [] h = tt
max_value-none p (s ∷ rest) h = ground (arith, max_value-none p rest)

below :
    (p : RawSample → Bool) (samples : List RawSample) (m n : ℕ)
    → m ≤ n
    → All (λ s. (if p s then s.value else 0) ≤ m) samples
    → All (λ s. (if p s then s.value else 0) ≤ n) samples
below p [] m n h k = tt
below p (s ∷ rest) m n h k = (omega (arith, h, k.0), below p rest m n h k.1)

nothing_below :
    (p : RawSample → Bool) (samples : List RawSample) (n : ℕ)
    → All (λ s. p s ≡ false) samples
    → All (λ s. (if p s then s.value else 0) ≤ n) samples
nothing_below p [] n k = tt
nothing_below p (s ∷ rest) n k = (ground (arith, k.0), nothing_below p rest n k.1)

max_value-IsPeak :
    (p : RawSample → Bool) (samples : List RawSample) (m : ℕ)
    → max_value (keep p samples) ≡ some m
    → IsPeak p samples m
unfolding max_value
max_value-IsPeak p [] m h = cc h
max_value-IsPeak p (s ∷ rest) m h = elim (Bool-cases (p s)) [
  | inr e ↦
      let (all, any) = max_value-IsPeak p rest m (ground (arith, e, h)) in
      ((ground (arith, e), all), inr any)
  | inl e ↦ elim (Option-cases (max_value (keep p rest))) [
    | inl f ↦
        let same : s.value ≡ m = ground (arith, e, f, h) in
        ((ground (arith, e, same), nothing_below p rest m (max_value-none p rest f)), inl (e, same))
    | inr (k, f) ↦
        let (all, any) = max_value-IsPeak p rest k f in
        let top : max s.value k ≡ m = ground (arith, e, f, h) in
        elim (Bool-cases (leb s.value k)) [
          | inl le ↦ (
            (ground (arith, e, top, le), below p rest k m (ground (arith, top)) all),
            inr (
                subst (λ x. Any (λ s. (p s ≡ true) × (s.value ≡ x)) rest) (ground (arith, top, le))
                  any),
          )
          | inr gt ↦ (
            (ground (arith, e, top, gt), below p rest k m (ground (arith, top)) all),
            inl (e, ground (arith, top, gt)),
          )
        ]
  ]
]

-- A value that is collected for a bucket is the value of a sample in its window `(end - length,
-- end]`, and no sample of the window has a greater one.
pub collect_max-IsPeak :
    (b : MaxBucketizer) (bucket_end : ℤ) (m : ℕ)
    → collect_max b bucket_end ≡ some m
    → IsPeak (in_window (bucket_end -ℤ pos b.bucket_len_ms) bucket_end) b.buffer.samples m
unfolding collect_max max_in checked_sub
collect_max-IsPeak b bucket_end m h =
    max_value-IsPeak (in_window (bucket_end -ℤ pos b.bucket_len_ms) bucket_end) b.buffer.samples m
      (ground (arith, h))
