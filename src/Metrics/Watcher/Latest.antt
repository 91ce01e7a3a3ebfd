-- ===== src/Metrics/Watcher/Latest.antt =====
-- src/metrics/bucket_watcher.rs: what a subscriber has been told after any run of samples.
use vpsiner.Prelude.{
  ℕ, suc, ◌≡◌, refl, ap, ◌∙◌, List, [], ◌∷◌, ℤ, pos, ltb_ℤ, max_ℤ, if◌then◌else◌, arith,
  eq_of_parts, ◌&&◌, Bool-cases, inl, inr, Bool, true, false, ◌+◌,
}
use vpsiner.Model.Metrics.{MetricsResolution, bucket_ms}
use vpsiner.Metrics.Bucket.{bucket_end}
use vpsiner.Metrics.Watcher.{
  BucketWatcher, MetricsSource, ResolutionChannel, ResolutionChannels, observe, channel, channels,
  with_channels, observe_all, observe_sample, all_resolutions, subscribe, new,
}

abbrev same_source : MetricsSource → MetricsSource → Bool
same_source MetricsSource.host MetricsSource.host = true
same_source MetricsSource.containers MetricsSource.containers = true
same_source _ _ = false

-- A run of samples, each with its source.
abbrev pub observe_run : BucketWatcher → List (MetricsSource × ℤ) → BucketWatcher
observe_run w [] = w
observe_run w ((source, ts) ∷ rest) = observe_run (observe_sample w source ts) rest

abbrev slot : BucketWatcher → MetricsSource → MetricsResolution → ResolutionChannel
slot w source r = channel (channels w source) r

channel-observe_all :
    (cs : ResolutionChannels) (ts : ℤ) (r : MetricsResolution)
    → channel (observe_all cs ts all_resolutions) r ≡ observe (channel cs r) ts (bucket_ms r)
unfolding observe_all
channel-observe_all cs ts MetricsResolution.ten_seconds = refl
channel-observe_all cs ts MetricsResolution.one_minute = refl
channel-observe_all cs ts MetricsResolution.five_minutes = refl
channel-observe_all cs ts MetricsResolution.one_hour = refl

-- One sample is one `observe` on each channel of its source, and nothing on the others.
slot-observe_sample :
    (w : BucketWatcher) (s t : MetricsSource) (ts : ℤ) (r : MetricsResolution)
    → slot (observe_sample w s ts) t r
      ≡ (if same_source s t then observe (slot w t r) ts (bucket_ms r) else slot w t r)
unfolding observe_sample
slot-observe_sample w s t ts r = go s t
  where
    go :
        (s t : MetricsSource)
        → channel (channels (with_channels w s (observe_all (channels w s) ts all_resolutions)) t) r
          ≡ (if same_source s t
              then observe (channel (channels w t) r) ts (bucket_ms r)
              else channel (channels w t) r)
    go MetricsSource.host MetricsSource.host = channel-observe_all w.host ts r
    go MetricsSource.host MetricsSource.containers = refl
    go MetricsSource.containers MetricsSource.host = refl
    go MetricsSource.containers MetricsSource.containers = channel-observe_all w.containers ts r

module _ (t : MetricsSource) (r : MetricsResolution) where
  -- The latest bucket end among the samples of the source, from `m` on.
  abbrev pub latest : ℤ → List (MetricsSource × ℤ) → ℤ
  latest m [] = m
  latest m ((s, ts) ∷ rest) =
      latest (if same_source s t then max_ℤ m (bucket_end ts (bucket_ms r)) else m) rest

  -- How many of the samples fall into a later bucket than all before them.
  abbrev pub advances : ℤ → List (MetricsSource × ℤ) → ℕ
  advances m [] = 0
  advances m ((s, ts) ∷ rest) =
      let e = bucket_end ts (bucket_ms r) in
      let n = advances (if same_source s t then max_ℤ m e else m) rest in
      if same_source s t && ltb_ℤ m e then suc n else n

  pub told : ℤ → ℕ → ResolutionChannel
  told m n = record { last_bucket_end = m; tx = record { value = m; version = n } }

  told-observe :
      (m : ℤ) (n : ℕ) (ts : ℤ)
      → observe (told m n) ts (bucket_ms r)
        ≡ (let e = bucket_end ts (bucket_ms r) in told (max_ℤ m e) (if ltb_ℤ m e then suc n else n))
  unfolding observe told
  told-observe m n ts = ground (arith, eq_of_parts m (bucket_end ts (bucket_ms r)))

  slot-observe_run :
      (w : BucketWatcher) (run : List (MetricsSource × ℤ)) (m : ℤ) (n : ℕ)
      → slot w t r ≡ told m n
      → slot (observe_run w run) t r ≡ told (latest m run) (n + advances m run)
  slot-observe_run w [] m n h = h ∙ ap (told m) (omega arith)
  slot-observe_run w ((s, ts) ∷ rest) m n h =
      let e = bucket_end ts (bucket_ms r) in
      let w' = observe_sample w s ts in
      let step = slot-observe_sample w s t ts r in
      elim (Bool-cases (same_source s t)) [
        | inr other ↦
            let kept : slot w' t r ≡ told m n = step ∙ rw (other, h) refl in
            rw other (slot-observe_run w' rest m n kept)
        | inl own ↦
            let seen : slot w' t r ≡ told (max_ℤ m e) (if ltb_ℤ m e then suc n else n) =
              step ∙ rw (own, h) (told-observe m n ts) in
            elim (Bool-cases (ltb_ℤ m e)) [
              | inl later ↦
                  let moved : slot w' t r ≡ told (max_ℤ m e) (suc n) =
                    seen ∙ ap (told (max_ℤ m e)) (rw later refl) in
                  rw (own, later)
                    (slot-observe_run w' rest (max_ℤ m e) (suc n) moved
                      ∙ ap (told (latest (max_ℤ m e) rest)) (omega arith))
              | inr not_later ↦
                  let still : slot w' t r ≡ told (max_ℤ m e) n =
                    seen ∙ ap (told (max_ℤ m e)) (rw not_later refl) in
                  rw (own, not_later) (slot-observe_run w' rest (max_ℤ m e) n still)
            ]
      ]

  first_told : slot new t r ≡ told (pos 0) 0
  unfolding new told channels channel
  first_told = go t r
    where
      go : (t : MetricsSource) (r : MetricsResolution) → channel (channels new t) r ≡ told (pos 0) 0
      go MetricsSource.host MetricsResolution.ten_seconds = refl
      go MetricsSource.host MetricsResolution.one_minute = refl
      go MetricsSource.host MetricsResolution.five_minutes = refl
      go MetricsSource.host MetricsResolution.one_hour = refl
      go MetricsSource.containers MetricsResolution.ten_seconds = refl
      go MetricsSource.containers MetricsResolution.one_minute = refl
      go MetricsSource.containers MetricsResolution.five_minutes = refl
      go MetricsSource.containers MetricsResolution.one_hour = refl

  subscribe-slot : (w : BucketWatcher) → subscribe w t r ≡ (slot w t r).tx
  unfolding subscribe
  subscribe-slot w = refl

  -- After any samples of both sources, a subscriber sees the latest bucket end of its own source
  -- and resolution, 0 at the least, and was woken once for each sample that moved it on.
  pub subscribe-latest :
      (run : List (MetricsSource × ℤ))
      → subscribe (observe_run new run) t r
        ≡ record { value = latest (pos 0) run; version = advances (pos 0) run }
  unfolding told
  subscribe-latest run =
      subscribe-slot (observe_run new run)
      ∙ ap (λ (c : ResolutionChannel). c.tx) (slot-observe_run new run (pos 0) 0 first_told)
      ∙ ap (λ n. record { value = latest (pos 0) run; version = n }) (omega arith)
