-- ===== src/Metrics/Downsampling/Sums.antt =====
-- src/metrics/downsampling.rs: the sums, counts and means of a run of samples, for any gauges.
use mathlib.Core.List.{foldl}
use native.Mathlib.Nat.{mod-eq_of_lt}
use vpsiner.Prelude.{
  Option-cases, ℕ, ◌^◌, ◌<◌, ◌+◌, ◌-◌, ◌*◌, ◌/◌, ◌%◌, ◌≤◌, ◌≡◌, refl, ap, ◌∙◌, true, List, [], ◌∷◌,
  Option, none, some, All, arith, length, ltb, inl, inr,
}
use vpsiner.Metrics.Downsampling.{
  OptionalGauge, OptionalGauge_add, OptionalGauge_default, mean_rate,
}

abbrev pub Fits : Option ℕ → Type 0
Fits none = Unit
Fits (some v) = v < 2 ^ 64

module _ {S : Type 0} where
  abbrev pub sum_of : (S → ℕ) → List S → ℕ
  sum_of value [] = 0
  sum_of value (s ∷ rest) = value s + sum_of value rest

  -- The values that are there.
  abbrev pub present : (S → Option ℕ) → List S → List ℕ
  present value [] = []
  present value (s ∷ rest) = elim (value s) [
    | none ↦ present value rest
    | some v ↦ v ∷ present value rest
  ]

  sum_of-le :
      (value : S → ℕ) (xs : List S)
      → All (λ s. value s < 2 ^ 64) xs
      → sum_of value xs ≤ length xs * (2 ^ 64 - 1)
  sum_of-le value [] h = omega arith
  sum_of-le value (s ∷ xs) h = omega (arith, sum_of-le value xs h.1)

  present-none :
      (value : S → Option ℕ) (s : S) (xs : List S)
      → value s ≡ none
      → present value (s ∷ xs) ≡ present value xs
  present-none value s xs e = ground arith

  present-some :
      (value : S → Option ℕ) (s : S) (xs : List S) (v : ℕ)
      → value s ≡ some v
      → present value (s ∷ xs) ≡ v ∷ present value xs
  present-some value s xs v e = ground arith

  present-All :
      (value : S → Option ℕ) (xs : List S)
      → All (λ s. Fits (value s)) xs
      → All (λ v. v < 2 ^ 64) (present value xs) × (length (present value xs) ≤ length xs)
  present-All value [] h = (tt, omega arith)
  present-All value (s ∷ xs) (h, t) =
      let (ih, size) = present-All value xs t in
      elim (Option-cases (value s)) [
        | inl e ↦ rw (present-none value s xs e) (ih, omega arith)
        | inr (v, e) ↦
            let f : Fits (some v) = rw e at h in
            rw (present-some value s xs v e) ((f, ih), omega arith)
      ]

-- The mean of words is a word.
mean_fits : (n total : ℕ) → 0 < n → total ≤ n * (2 ^ 64 - 1) → total / n < 2 ^ 64
mean_fits n total h k = grind arith

abbrev pub mean : List ℕ → Option ℕ
mean [] = none
mean (v ∷ vs) = some (sum_of (λ x. x) (v ∷ vs) / length (v ∷ vs))

add-none : (o : OptionalGauge) (w : Option ℕ) → w ≡ none → OptionalGauge_add o w ≡ o
unfolding OptionalGauge_add
add-none o w e = ground arith

add-some_count :
    (o : OptionalGauge) (v : ℕ)
    → o.count + 1 < 2 ^ 64
    → (OptionalGauge_add o (some v)).count ≡ o.count + 1
unfolding OptionalGauge_add
add-some_count o v h = omega arith

add-some_total :
    (o : OptionalGauge) (v : ℕ)
    → o.total + v < 2 ^ 128
    → (OptionalGauge_add o (some v)).total ≡ o.total + v
unfolding OptionalGauge_add
add-some_total o v h = omega arith

module _ {S G : Type 0} (add : G → S → G) where
  fold_total :
      (m : ℕ) (field : G → ℕ) (value : S → ℕ)
      → ((g : G) (s : S) → field (add g s) ≡ (field g + value s) % m)
      → (g : G) (xs : List S) → field g + sum_of value xs < m
      → field (foldl add g xs) ≡ field g + sum_of value xs
  fold_total m field value step g [] h = omega arith
  fold_total m field value step g (s ∷ xs) h =
      let room : field g + value s < m = omega arith in
      let e : field (add g s) ≡ field g + value s = step g s ∙ mod-eq_of_lt room in
      omega (arith, e, fold_total m field value step (add g s) xs (omega (arith, e)))

  fold_optional :
      (field : G → OptionalGauge) (value : S → Option ℕ)
      → ((g : G) (s : S) → field (add g s) ≡ OptionalGauge_add (field g) (value s))
      → (g : G) (xs : List S) → (field g).count + length (present value xs) < 2 ^ 64
      → (field g).total + sum_of (λ x. x) (present value xs) < 2 ^ 128
      → ((field (foldl add g xs)).count ≡ (field g).count + length (present value xs))
        × ((field (foldl add g xs)).total ≡ (field g).total + sum_of (λ x. x) (present value xs))
  fold_optional field value step g [] h k = omega arith
  fold_optional field value step g (s ∷ xs) h k = elim (Option-cases (value s)) [
    | inl e ↦
        let same = step g s ∙ add-none (field g) (value s) e in
        let c : (field (add g s)).count ≡ (field g).count =
          ap (λ (o : OptionalGauge). o.count) same in
        let t : (field (add g s)).total ≡ (field g).total =
          ap (λ (o : OptionalGauge). o.total) same in
        rw (present-none value s xs e) (
          let h' = rw (present-none value s xs e) at h in
          let k' = rw (present-none value s xs e) at k in
          let ih = fold_optional field value step (add g s) xs (rw c h') (rw t k') in
          omega (arith, ih, c, t))
    | inr (v, e) ↦
        let more = present-some value s xs v e in
        let h' = rw more at h in
        let k' = rw more at k in
        let next = step g s ∙ ap (OptionalGauge_add (field g)) e in
        let c : (field (add g s)).count ≡ (field g).count + 1 =
          ap (λ (o : OptionalGauge). o.count) next ∙ add-some_count (field g) v (omega arith) in
        let t : (field (add g s)).total ≡ (field g).total + v =
          ap (λ (o : OptionalGauge). o.total) next ∙ add-some_total (field g) v (omega arith) in
        let ih =
          fold_optional field value step (add g s) xs (omega (arith, c)) (omega (arith, t)) in
        rw more (omega (arith, ih, c, t))
  ]

mean_rate-mean :
    (g : OptionalGauge) (vs : List ℕ)
    → g.count ≡ length vs
    → g.total ≡ sum_of (λ x. x) vs
    → All (λ v. v < 2 ^ 64) vs
    → mean_rate g ≡ mean vs
unfolding mean_rate
mean_rate-mean g [] c t h = ground arith
mean_rate-mean g (v ∷ vs) c t h =
    let small =
      mean_fits (length (v ∷ vs)) (sum_of (λ x. x) (v ∷ vs)) (omega arith)
        (sum_of-le (λ x. x) (v ∷ vs) h) in
    let some_samples : ltb 0 (length (v ∷ vs)) ≡ true = ground arith in
    rw (c, t, some_samples) (ap some (mod-eq_of_lt small))

-- The field of a gauge that keeps the sum of a value of the samples.
pub record Sums {S G : Type 0} (add : G → S → G) (default : G) (field : G → ℕ) (value : S → ℕ)
    : Type 0 where
  pub start : field default ≡ 0
  pub step : (g : G) (s : S) → field (add g s) ≡ (field g + value s) % 2 ^ 128

pub record OptionalSums {S G : Type 0} (add : G → S → G) (default : G) (field : G → OptionalGauge)
    (value : S → Option ℕ) : Type 0 where
  pub start : field default ≡ OptionalGauge_default
  pub step : (g : G) (s : S) → field (add g s) ≡ OptionalGauge_add (field g) (value s)

module _ {S G : Type 0} (add : G → S → G) (default : G) (samples : List S)
    (few : length samples < 2 ^ 64) where
  abbrev gauges : G
  gauges = foldl add default samples

  pub count_lem :
      (count : G → ℕ)
      → count default ≡ 0
      → ((g : G) (s : S) → count (add g s) ≡ (count g + 1) % 2 ^ 64)
      → count gauges ≡ length samples
  count_lem count start step =
      let n = ones samples in
      omega (arith, fold_total add (2 ^ 64) count (λ _. 1) step default samples (omega arith))
    where
      ones : (xs : List S) → sum_of (λ _. 1) xs ≡ length xs
      ones [] = refl
      ones (x ∷ xs) = omega (arith, ones xs)

  pub sum-mean :
      (count : ℕ) (field : G → ℕ) (value : S → ℕ)
      → Sums add default field value
      → count ≡ length samples
      → 0 < count
      → All (λ s. value s < 2 ^ 64) samples
      → field gauges / count % 2 ^ 64 ≡ sum_of value samples / length samples
  sum-mean count field value sums c positive h =
      let bound = sum_of-le value samples h in
      let start = sums.start in
      let total : field gauges ≡ sum_of value samples =
        omega
          (arith, fold_total add (2 ^ 128) field value sums.step default samples (omega arith)) in
      rw (total, c)
        (mod-eq_of_lt (mean_fits (length samples) (sum_of value samples) (omega arith) bound))

  pub optional-mean :
      (field : G → OptionalGauge) (value : S → Option ℕ)
      → OptionalSums add default field value
      → All (λ s. Fits (value s)) samples
      → mean_rate (field gauges) ≡ mean (present value samples)
  optional-mean field value sums h =
      let (small, size) = present-All value samples h in
      let bound = sum_of-le (λ x. x) (present value samples) small in
      let c : (field default).count ≡ 0 = ap (λ (o : OptionalGauge). o.count) sums.start in
      let t : (field default).total ≡ 0 = ap (λ (o : OptionalGauge). o.total) sums.start in
      let both =
        fold_optional add field value sums.step default samples (omega arith) (omega arith) in
      mean_rate-mean (field gauges) (present value samples) (omega arith) (omega arith) small
