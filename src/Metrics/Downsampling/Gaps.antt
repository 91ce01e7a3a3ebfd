-- ===== src/Metrics/Downsampling/Gaps.antt =====
-- src/metrics/downsampling.rs: which buckets are given up for their silences.
use mathlib.Core.List.{foldl}
use native.Mathlib.Nat.{mod-eq_of_lt}
use vpsiner.Prelude.{
  ℕ, ◌^◌, ◌<◌, ◌*◌, ◌/◌, ◌≡◌, ◌↔◌, refl, ap, ◌∙◌, true, false, List, [], ◌∷◌, some, ℤ, pos,
  pos_part, neg_part, ◌-ℤ◌, ◌≤ℤ◌, wrap_i64, wrap_i64-id, All, arith, int_laws, one_part, length,
  max_ℤ, ltb_ℤ, map, is_some,
}
use vpsiner.Model.Metrics.{HostSample, ContainerSample}
use vpsiner.Metrics.Bucket.Window.{IsTime}
use vpsiner.Metrics.Downsampling.{
  GapTracker, GapTracker_default, observe, exceeds_max_gap, gap_threshold, is_discarded, HostGauges,
  HostGauges_default, HostGauges_add, HostGauges_finish, ContainerGauges, ContainerGauges_default,
  ContainerGauges_add, ContainerGauges_finish,
}
use vpsiner.Metrics.Downsampling.Sums.{count_lem}

-- The stretches of the bucket with no sample: from the start to the first, between one and the
-- next, from the last to the end.
abbrev pub silences : ℤ → List ℤ → ℤ → List ℤ
silences from [] end = (end -ℤ from) ∷ []
silences from (t ∷ ts) end = (t -ℤ from) ∷ silences t ts end

-- Differences of such times fit 64 bits.
abbrev pub IsNear : ℤ → Type 0
IsNear t = (pos_part t < 2 ^ 62) × (neg_part t < 2 ^ 62)

near_difference : (a b : ℤ) → IsNear a → IsNear b → wrap_i64 (a -ℤ b) ≡ a -ℤ b
near_difference a b h k = wrap_i64-id (a -ℤ b) (omega (int_laws, one_part (a -ℤ b)))

threshold_lem : (b pct : ℕ) → b < 2 ^ 32 → pct < 256 → gap_threshold b pct ≡ pos (b * pct / 100)
unfolding gap_threshold
threshold_lem b pct h k =
    let small : b * pct < 2 ^ 32 * 256 = grind arith in
    let word : b * pct < 2 ^ 64 = omega arith in
    rw (mod-eq_of_lt word) (wrap_i64-id (pos (b * pct / 100)) (omega arith))

abbrev tracker : ℤ → ℤ → ℤ → GapTracker
tracker first last m = record { first_ts = some first; last_ts = some last; max_interior_gap = m }

max-le : (a b c : ℤ) → (max_ℤ a b ≤ℤ c) ↔ ((a ≤ℤ c) × (b ≤ℤ c))
max-le a b c = (λ h. ground arith, λ h. ground arith)

decided :
    (m x y limit : ℤ)
    → (some (ltb_ℤ limit (max_ℤ (max_ℤ m x) y)) ≡ some false)
      ↔ ((m ≤ℤ limit) × (x ≤ℤ limit) × ((y ≤ℤ limit) × Unit {0}))
decided m x y limit = (λ h. ground arith, λ h. ground arith)

module _ (b pct : ℕ) (end : ℤ) (short : b < 2 ^ 32) (percent : pct < 256) (near : IsNear end)
    (near_start : IsNear (end -ℤ pos b)) where
  abbrev Within : List ℤ → Type 0
  Within ds = All (λ d. d ≤ℤ pos (b * pct / 100)) ds

  -- What remains to be shown of a tracker that has seen `first` up to `last`.
  tracker_exceeds :
      (first last m : ℤ) (ts : List ℤ)
      → IsNear first
      → IsNear last
      → All IsNear ts
      → (exceeds_max_gap (foldl observe (tracker first last m) ts) end b pct ≡ some false) ↔ (
          (m ≤ℤ pos (b * pct / 100))
          × (first -ℤ (end -ℤ pos b) ≤ℤ pos (b * pct / 100))
          × Within (silences last ts end))
  unfolding exceeds_max_gap observe
  tracker_exceeds first last m [] nf nl h =
      rw
        (
          near_difference end (pos b) near (omega arith),
          near_difference first (end -ℤ pos b) nf near_start,
          near_difference end last near nl,
          threshold_lem b pct short percent,
        )
        (decided m (first -ℤ (end -ℤ pos b)) (end -ℤ last) (pos (b * pct / 100)))
  tracker_exceeds first last m (t ∷ ts) nf nl h =
      let ih = tracker_exceeds first t (max_ℤ m (t -ℤ last)) ts nf h.0 h.1 in
      let limit = pos (b * pct / 100) in
      rw (near_difference t last h.0 nl) (
        λ e.
            let (x, y, z) = ih.0 e in
            let (p, q) = (max-le m (t -ℤ last) limit).0 x in (p, y, (q, z)),
        λ w. ih.1 ((max-le m (t -ℤ last) limit).1 (w.0, w.2.0), w.1, w.2.1),
      )

  observed :
      (first : ℤ) (rest : List ℤ)
      → IsNear first
      → All IsNear rest
      → (exceeds_max_gap (foldl observe GapTracker_default (first ∷ rest)) end b pct ≡ some false)
        ↔ Within (silences (end -ℤ pos b) (first ∷ rest) end)
  unfolding observe
  observed first rest nf nr =
      let h = tracker_exceeds first first (pos 0) rest nf nf nr in
      (λ e. let (x, y, z) = h.0 e in (y, z), λ w. h.1 (omega arith, w.0, w.1))

-- The tracker of the gauges is the tracker of the timestamps.
gap-foldl :
    {S G : Type 0} (add : G → S → G) (gap : G → GapTracker) (ts : S → ℤ)
    → ((g : G) (s : S) → gap (add g s) ≡ observe (gap g) (ts s))
    → (g : G) (xs : List S) → gap (foldl add g xs) ≡ foldl observe (gap g) (map ts xs)
gap-foldl add gap ts step g [] = refl
gap-foldl add gap ts step g (s ∷ xs) =
    gap-foldl add gap ts step (add g s) xs ∙ ap (λ t. foldl observe t (map ts xs)) (step g s)

IsNear-All :
    {S : Type 0} (ts : S → ℤ) (xs : List S) → All (λ s. IsTime (ts s)) xs → All IsNear (map ts xs)
IsNear-All ts [] h = tt
IsNear-All ts (s ∷ xs) h = (omega (arith, h.0.above, h.0.below), IsNear-All ts xs h.1)

not_discarded :
    (count : ℕ) (gap : GapTracker) (end : ℤ) (b pct : ℕ)
    → 0 < count
    → (is_discarded count gap end b pct ≡ false) ↔ (exceeds_max_gap gap end b pct ≡ some false)
unfolding is_discarded
not_discarded count gap end b pct h = (λ e. ground arith, λ e. ground arith)

HostGauges_finish-some :
    (g : HostGauges) (end : ℤ) (b pct : ℕ)
    → (is_some (HostGauges_finish g end b pct) ≡ true)
      ↔ (is_discarded g.count g.gap end b pct ≡ false)
unfolding HostGauges_finish
HostGauges_finish-some g end b pct = (λ h. ground arith, λ h. ground arith)

ContainerGauges_finish-some :
    (g : ContainerGauges) (end : ℤ) (b pct : ℕ)
    → (is_some (ContainerGauges_finish g end b pct) ≡ true)
      ↔ (is_discarded g.count g.gap end b pct ≡ false)
unfolding ContainerGauges_finish
ContainerGauges_finish-some g end b pct = (λ h. ground arith, λ h. ground arith)

module _ (b pct : ℕ) (end : ℤ) (short : b < 2 ^ 32) (percent : pct < 256) (near : IsNear end)
    (near_start : IsNear (end -ℤ pos b)) where
  module _ {S G : Type 0} (add : G → S → G) (default : G) (count : G → ℕ) (gap : G → GapTracker)
      (ts : S → ℤ) (s : S) (rest : List S) where
    kept_iff :
        (count (foldl add default (s ∷ rest)) ≡ length (s ∷ rest))
        → gap default ≡ GapTracker_default
        → ((g : G) (x : S) → gap (add g x) ≡ observe (gap g) (ts x))
        → All (λ x. IsTime (ts x)) (s ∷ rest)
        → (is_discarded
              (count (foldl add default (s ∷ rest)))
              (gap (foldl add default (s ∷ rest)))
              end
              b
              pct
            ≡ false)
          ↔ All (λ d. d ≤ℤ pos (b * pct / 100)) (silences (end -ℤ pos b) (map ts (s ∷ rest)) end)
    kept_iff counted start step times =
        let e =
          gap-foldl add gap ts step default (s ∷ rest)
          ∙ ap (λ t. foldl observe t (map ts (s ∷ rest))) start in
        let n = IsNear-All ts (s ∷ rest) times in
        let (to, from) =
          not_discarded (count (foldl add default (s ∷ rest))) (gap (foldl add default (s ∷ rest)))
            end b pct (omega (arith, counted)) in
        let (there, back) =
          observed b pct end short percent near near_start (ts s) (map ts rest) n.0 n.1 in
        (λ h. there (rw e at (to h)), λ w. from (rw e (back w)))

  -- A host bucket of at least one and fewer than 2^64 samples, of times near the epoch and a
  -- length below 2^32, gives a sample exactly when no silence in it, from its start to the first
  -- sample and from the last to its end included, is longer than the given percentage of the
  -- bucket.
  pub HostGauges_finish-kept_iff :
      (s : HostSample) (rest : List HostSample)
      → length (s ∷ rest) < 2 ^ 64
      → All (λ x. IsTime x.ts) (s ∷ rest)
      → (is_some (HostGauges_finish (foldl HostGauges_add HostGauges_default (s ∷ rest)) end b pct)
          ≡ true)
        ↔ All
            (λ d. d ≤ℤ pos (b * pct / 100))
            (silences (end -ℤ pos b) (map (λ x. x.ts) (s ∷ rest)) end)
  unfolding HostGauges_add
  HostGauges_finish-kept_iff s rest few times =
      let add = HostGauges_add in
      let g = foldl add HostGauges_default (s ∷ rest) in
      let counted =
        count_lem add HostGauges_default (s ∷ rest) few (λ x. x.count) refl (λ _ _. refl) in
      let (to, from) =
        kept_iff add HostGauges_default (λ x. x.count) (λ x. x.gap) (λ x. x.ts) s rest counted refl
          (λ _ _. refl) times in
      let (keeps, gives) = HostGauges_finish-some g end b pct in
      (λ h. to (keeps h), λ w. gives (from w))

  -- A container bucket of at least one and fewer than 2^64 samples, of times near the epoch and a
  -- length below 2^32, gives a sample exactly when no silence in it, from its start to the first
  -- sample and from the last to its end included, is longer than the given percentage of the
  -- bucket.
  pub ContainerGauges_finish-kept_iff :
      (s : ContainerSample) (rest : List ContainerSample)
      → length (s ∷ rest) < 2 ^ 64
      → All (λ x. IsTime x.ts) (s ∷ rest)
      → (is_some (
            ContainerGauges_finish
              (foldl ContainerGauges_add ContainerGauges_default (s ∷ rest))
              end
              b
              pct)
          ≡ true)
        ↔ All
            (λ d. d ≤ℤ pos (b * pct / 100))
            (silences (end -ℤ pos b) (map (λ x. x.ts) (s ∷ rest)) end)
  unfolding ContainerGauges_add
  ContainerGauges_finish-kept_iff s rest few times =
      let add = ContainerGauges_add in
      let g = foldl add ContainerGauges_default (s ∷ rest) in
      let counted =
        count_lem add ContainerGauges_default (s ∷ rest) few (λ x. x.count) refl (λ _ _. refl) in
      let (to, from) =
        kept_iff add ContainerGauges_default (λ x. x.count) (λ x. x.gap) (λ x. x.ts) s rest counted
          refl (λ _ _. refl) times in
      let (keeps, gives) = ContainerGauges_finish-some g end b pct in
      (λ h. to (keeps h), λ w. gives (from w))
