-- ===== src/Logs/Buffer/Dedup.antt =====
-- src/logs/buffer.rs: what the deduplication lets through, and what the checkpoints mean.
use vpsiner.Prelude.{
  ℕ, ◌≡◌, ◌≢◌, ◌↔◌, refl, String, true, false, ◌&&◌, ◌||◌, List, [], ◌∷◌, ◌++◌, Option, none, some,
  HashMap, arith, if◌then◌else◌, lookup, insert, lookup-insert, ◌≤ℤ◌, ltb_ℤ, eq_ℤ, eq_ℤ_iff, ◌==◌,
  ◌⊎◌, inl, inr, is_eq, Bool-cases, ==_iff,
}
use vpsiner.Model.ContainerId.{ContainerId, Eq-ContainerId}
use vpsiner.Model.Logs.{LogStream, LogLine}
use vpsiner.Logs.Buffer.{
  Service, Checkpoint, dropped, flush_now, scheduled, hash_line, is_duplicate, push, accept,
  restore,
}
use vpsiner.Logs.Buffer.Steps.{
  System, start, Step, push_dropped, push_scheduled, push_flush, begin_flush, append_failed,
  append_only, append_stored, worker_woken, worker_drained, worker_began, worker_skipped,
  worker_idle, Run, here, step,
}
use vpsiner.Logs.Buffer.Delivery.{push-accept, take_batch-lines}

module _ (hash : LogStream → String → ℕ) where
  abbrev pub key : LogLine → Checkpoint
  key l = (l.ts, hash_line hash l)

  -- Not older than the last line of its container, and not an exact repeat of it.
  abbrev pub Fresh : Option Checkpoint → LogLine → Type 0
  Fresh none l = Unit
  Fresh (some (ts, h)) l = (ts ≤ℤ l.ts) × (¬ ((l.ts ≡ ts) × (hash_line hash l ≡ h)))

  Fresh-known :
      (last : Option Checkpoint) (l : LogLine)
      → (elim last [
        | none ↦ false
        | some (ts_last, hash_last) ↦
            ltb_ℤ l.ts ts_last || (eq_ℤ l.ts ts_last && hash_line hash l == hash_last)
      ]
          ≡ false)
        ↔ Fresh last l
  Fresh-known none l = (λ _. tt, λ _. refl)
  Fresh-known (some (ts, h)) l = (
    λ e. (ground arith, λ w. ground (arith, (eq_ℤ_iff l.ts ts).1 w.0, w.1)),
    λ f. elim (Bool-cases (eq_ℤ l.ts ts)) [
      | inl same ↦ elim (Bool-cases (hash_line hash l == h)) [
        | inl equal ↦
            absurd (f.1 ((eq_ℤ_iff l.ts ts).0 same, (==_iff (hash_line hash l) h).0 equal))
        | inr differs ↦ rw differs (ground (arith, f.0))
      ]
      | inr differs ↦ ground (arith, f.0)
    ],
  )

  is_duplicate-Fresh :
      (s : Service) (l : LogLine)
      → (is_duplicate hash s l ≡ false) ↔ Fresh (lookup l.cid s.checkpoints) l
  unfolding is_duplicate
  is_duplicate-Fresh s l = Fresh-known (lookup l.cid s.checkpoints) l

  push-new :
      (max : ℕ) (s : Service) (l : LogLine)
      → is_duplicate hash s l ≡ false
      → push hash max s l ≢ dropped
  unfolding push accept
  push-new max s l e = rw (e, accept, push) (ground arith)

  push-known :
      (max : ℕ) (s : Service) (l : LogLine)
      → is_duplicate hash s l ≡ true
      → push hash max s l ≡ dropped
  unfolding push accept
  push-known max s l e = rw (e, accept, push) refl

  -- A pushed line is let through exactly when it is not older than the checkpoint of its container
  -- and does not repeat its time and hash.
  pub push-dropped_iff :
      (max : ℕ) (s : Service) (l : LogLine)
      → (push hash max s l ≢ dropped) ↔ Fresh (lookup l.cid s.checkpoints) l
  push-dropped_iff max s l =
      let (to, from) = is_duplicate-Fresh s l in
      (
        λ n. elim (Bool-cases (is_duplicate hash s l)) [
          | inl e ↦ absurd (n (push-known max s l e))
          | inr e ↦ to e
        ],
        λ f. push-new max s l (from f),
      )

  -- The last key of each container after some lines.
  abbrev pub after : (ContainerId → Option Checkpoint) → LogLine → ContainerId → Option Checkpoint
  after known l cid = if is_eq l.cid cid then some (key l) else known cid

  abbrev pub latest :
      (ContainerId → Option Checkpoint) → List LogLine → ContainerId → Option Checkpoint
  latest known [] = known
  latest known (l ∷ ls) = latest (after known l) ls

  abbrev pub AllFresh : (ContainerId → Option Checkpoint) → List LogLine → Type 0
  AllFresh known [] = Unit
  AllFresh known (l ∷ ls) = Fresh (known l.cid) l × AllFresh (after known l) ls

  pub latest-append :
      (known : ContainerId → Option Checkpoint) (xs ys : List LogLine)
      → latest known (xs ++ ys) ≡ latest (latest known xs) ys
  latest-append known [] ys = refl
  latest-append known (x ∷ xs) ys = latest-append (after known x) xs ys

  AllFresh-snoc :
      (known : ContainerId → Option Checkpoint) (xs : List LogLine) (l : LogLine)
      → AllFresh known xs
      → Fresh (latest known xs l.cid) l
      → AllFresh known (xs ++ l ∷ [])
  AllFresh-snoc known [] l a f = (f, tt)
  AllFresh-snoc known (x ∷ xs) l a f = (a.0, AllFresh-snoc (after known x) xs l a.1 f)

  -- The checkpoints are the last keys, and the accepted lines follow the rule.
  pub record IsTracked (seed : HashMap ContainerId Checkpoint) (s : System) : Type 0 where
    pub known :
        (cid : ContainerId)
        → lookup cid s.service.checkpoints ≡ latest (λ c. lookup c seed) s.accepted cid
    pub fresh : AllFresh (λ c. lookup c seed) s.accepted

  accept-checkpoints :
      (s a : Service) (l : LogLine)
      → accept hash s l ≡ some a
      → (a.checkpoints ≡ insert l.cid (key l) s.checkpoints) × Fresh (lookup l.cid s.checkpoints) l
  unfolding accept
  accept-checkpoints s a l h = elim (Bool-cases (is_duplicate hash s l)) [
    | inl e ↦ absurd (ground arith)
    | inr e ↦ (ground arith, (is_duplicate-Fresh s l).0 e)
  ]

  pushed-IsTracked :
      (max : ℕ) {seed : HashMap ContainerId Checkpoint} (s : System) (to : Service) (l : LogLine)
      → (push hash max s.service l ≡ scheduled to) ⊎ (push hash max s.service l ≡ flush_now to)
      → IsTracked seed s
      → IsTracked seed (record s { service = to; accepted = s.accepted ++ l ∷ [] })
  pushed-IsTracked max {seed} s to l h v =
      let (a, accepted, _, same) = push-accept hash max s.service to l h in
      let (stored, fresh) = accept-checkpoints s.service a l accepted in
      record {
        known = λ cid. rw (same, stored, lookup-insert, latest-append, v.known) refl;
        fresh = AllFresh-snoc (λ c. lookup c seed) s.accepted l v.fresh (rw (← v.known) fresh);
      }

  restore-checkpoints :
      (s : Service) (lines : List LogLine) → (restore s lines).checkpoints ≡ s.checkpoints
  unfolding restore
  restore-checkpoints s lines = ground arith

  module _ (max : ℕ) {seed : HashMap ContainerId Checkpoint} where
    -- A step that leaves the accepted lines and the checkpoints alone.
    unchanged :
        (s t : System)
        → t.service.checkpoints ≡ s.service.checkpoints
        → t.accepted ≡ s.accepted
        → IsTracked seed s
        → IsTracked seed t
    unchanged s t c a v = record { known = λ cid. rw (c, a) (v.known cid); fresh = rw a v.fresh }

    pub Step-IsTracked : {s t : System} → Step hash max s t → IsTracked seed s → IsTracked seed t
    Step-IsTracked (push_dropped l h) v = v
    Step-IsTracked {s} (push_scheduled l to h) v = pushed-IsTracked max s to l (inl h) v
    Step-IsTracked {s} (push_flush l to h) v = pushed-IsTracked max s to l (inr h) v
    Step-IsTracked {s} {t} (begin_flush to b h) v =
        unchanged s t (take_batch-lines false s.service to b h).2 refl v
    Step-IsTracked {s} {t} (append_failed before behind b commits h) v =
        unchanged s t (restore-checkpoints s.service b.lines) refl v
    Step-IsTracked {s} {t} (append_only before behind b h) v = unchanged s t refl refl v
    Step-IsTracked {s} {t} (append_stored before behind b f h) v = unchanged s t refl refl v
    Step-IsTracked {s} {t} (worker_woken w h) v = unchanged s t refl refl v
    Step-IsTracked {s} {t} (worker_drained waiting w h) v = unchanged s t refl refl v
    Step-IsTracked {s} {t} (worker_began to b w h) v =
        unchanged s t (take_batch-lines true s.service to b h).2 refl v
    Step-IsTracked {s} {t} (worker_skipped w h) v = unchanged s t refl refl v
    Step-IsTracked {s} {t} (worker_idle waiting w h l) v = unchanged s t refl refl v

    -- In every interleaving, the checkpoint in memory of a container is the time and hash of its
    -- last accepted line, at first the one it was seeded with; and no accepted line is older than
    -- the accepted line of its container before it, nor an exact repeat of that.
    pub run-IsTracked : {t : System} → Run hash max (start seed) t → IsTracked seed t
    run-IsTracked here = record { known = λ cid. refl; fresh = tt }
    run-IsTracked (step r st) = Step-IsTracked st (run-IsTracked r)
