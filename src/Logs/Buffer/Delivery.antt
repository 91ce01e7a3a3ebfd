-- ===== src/Logs/Buffer/Delivery.antt =====
-- src/logs/buffer.rs: no accepted line is lost, and none is stored twice, by the buffer.
use mathlib.Core.List.{append-nil}
use vpsiner.Prelude.{
  ℕ, ◌+◌, ◌≡◌, refl, ap, ◌∙◌, String, Bool, true, false, List, [], ◌∷◌, ◌++◌, Option, none, some,
  HashMap, arith, sym, ◌⊎◌, inl, inr, Option-cases, if◌then◌else◌,
}
use vpsiner.Model.ContainerId.{ContainerId}
use vpsiner.Model.Logs.{LogStream, LogLine}
use vpsiner.Logs.Buffer.{
  Service, Batch, Checkpoint, flush_now, scheduled, push, accept, take_batch, request_flush,
  restore,
}
use vpsiner.Logs.Buffer.Steps.{
  System, start, Step, push_dropped, push_scheduled, push_flush, begin_flush, append_failed,
  committed, append_only, append_stored, worker_woken, worker_drained, worker_began, worker_skipped,
  worker_idle, Run, here, step,
}

-- How many lines pass a test.
abbrev pub count : (LogLine → Bool) → List LogLine → ℕ
count p [] = 0
count p (l ∷ ls) = (if p l then 1 else 0) + count p ls

abbrev pub lines_of : List Batch → List LogLine
lines_of [] = []
lines_of (b ∷ bs) = b.lines ++ lines_of bs

count-append :
    (p : LogLine → Bool) (xs ys : List LogLine) → count p (xs ++ ys) ≡ count p xs + count p ys
count-append p [] ys = omega arith
count-append p (x ∷ xs) ys = omega (arith, count-append p xs ys)

count-lines_of :
    (p : LogLine → Bool) (bs cs : List Batch)
    → count p (lines_of (bs ++ cs)) ≡ count p (lines_of bs) + count p (lines_of cs)
count-lines_of p [] cs = omega arith
count-lines_of p (b ∷ bs) cs = omega (
  arith,
  count-lines_of p bs cs,
  count-append p b.lines (lines_of (bs ++ cs)),
  count-append p b.lines (lines_of bs),
)

pub restore-lines :
    (s : Service) (lines : List LogLine) → (restore s lines).lines ≡ lines ++ s.lines
unfolding restore
restore-lines s lines = go s.lines s.flush_tx
  where
    go :
        (old : List LogLine) (tx : Option Bool)
        → (request_flush (record s {
          lines = elim old [ [] ↦ lines | newer ∷ rest ↦ lines ++ (newer ∷ rest) ];
          flush_tx = tx;
        })).lines
          ≡ lines ++ old
    go [] none = sym (append-nil lines)
    go [] (some w) = sym (append-nil lines)
    go (x ∷ xs) none = refl
    go (x ∷ xs) (some w) = refl

pub take_batch-lines :
    (w : Bool) (s next : Service) (b : Batch)
    → take_batch w s ≡ some (next, b)
    → (b.lines ≡ s.lines) × (next.lines ≡ []) × (next.checkpoints ≡ s.checkpoints)
unfolding take_batch
take_batch-lines w s next b h = ground arith

pub accept-lines :
    (hash : LogStream → String → ℕ) (s next : Service) (l : LogLine)
    → accept hash s l ≡ some next
    → next.lines ≡ s.lines ++ l ∷ []
unfolding accept
accept-lines hash s next l h = ground arith

-- A push that is not dropped has appended its line.
pub push-accept :
    (hash : LogStream → String → ℕ) (max : ℕ) (s next : Service) (l : LogLine)
    → (push hash max s l ≡ scheduled next) ⊎ (push hash max s l ≡ flush_now next)
    → (accepted : Service) × (accept hash s l ≡ some accepted)
      × (next.lines ≡ accepted.lines)
      × (next.checkpoints ≡ accepted.checkpoints)
unfolding push
push-accept hash max s next l h = elim (Option-cases (accept hash s l)) [
  | inl e ↦ absurd (ground arith)
  | inr (accepted, e) ↦ (accepted, e, ground arith, ground arith)
]

module _ (p : LogLine → Bool) where
  -- How many lines are stored, under way or buffered.
  abbrev pub held : System → ℕ
  held s = count p s.appended + count p (lines_of s.in_flight) + count p s.service.lines

  count-taken :
      (in_flight before after : List Batch) (b : Batch)
      → in_flight ≡ before ++ b ∷ after
      → count p (lines_of in_flight) ≡ count p (lines_of (before ++ after)) + count p b.lines
  count-taken in_flight before after b e = rw e (
      omega (
        arith,
        count-lines_of p before (b ∷ after),
        count-lines_of p before after,
        count-append p b.lines (lines_of after),
      ))

  module _ (hash : LogStream → String → ℕ) (max : ℕ) where
    pushed-held :
        (s : System) (next : Service) (l : LogLine)
        → (push hash max s.service l ≡ scheduled next)
          ⊎ (push hash max s.service l ≡ flush_now next)
        → count p s.accepted + count p s.repeated ≡ held s
        → count p (s.accepted ++ l ∷ []) + count p s.repeated
          ≡ held (record s { service = next; accepted = s.accepted ++ l ∷ [] })
    pushed-held s next l h e =
        let (a, accepted, same, _) = push-accept hash max s.service next l h in
        let lines = same ∙ accept-lines hash s.service a l accepted in
        rw lines (
          omega
            (arith, count-append p s.accepted (l ∷ []), count-append p s.service.lines (l ∷ [])))

    taken-held :
        (s : System) (next : Service) (b : Batch) (by_worker : Bool)
        → take_batch by_worker s.service ≡ some (next, b)
        → count p s.accepted + count p s.repeated ≡ held s
        → count p s.accepted + count p s.repeated
          ≡ count p s.appended + count p (lines_of (s.in_flight ++ b ∷ [])) + count p next.lines
    taken-held s next b by_worker h e =
        let (taken, left, _) = take_batch-lines by_worker s.service next b h in
        rw (left) (
          omega (
            arith,
            count-lines_of p s.in_flight (b ∷ []),
            count-append p b.lines [],
            ap (count p) taken,
          ))

    Step-held :
        {s t : System}
        → Step hash max s t
        → count p s.accepted + count p s.repeated ≡ held s
        → count p t.accepted + count p t.repeated ≡ held t
    Step-held (push_dropped l h) e = e
    Step-held {s} (push_scheduled l next h) e = pushed-held s next l (inl h) e
    Step-held {s} (push_flush l next h) e = pushed-held s next l (inr h) e
    Step-held {s} (begin_flush next b h) e = taken-held s next b false h e
    Step-held {s} (append_failed before after b commits h) e =
        rw (restore-lines s.service b.lines) (
          omega (
            arith,
            count-taken s.in_flight before after b h,
            count-append p b.lines s.service.lines,
            count-append p s.appended (committed commits b.lines),
            count-append p s.repeated (committed commits b.lines),
          ))
    Step-held {s} (append_only before after b h) e =
        omega (arith, count-taken s.in_flight before after b h, count-append p s.appended b.lines)
    Step-held {s} (append_stored before after b f h) e =
        omega (arith, count-taken s.in_flight before after b h, count-append p s.appended b.lines)
    Step-held (worker_woken w h) e = e
    Step-held (worker_drained waiting w h) e = e
    Step-held {s} (worker_began next b w h) e = taken-held s next b true h e
    Step-held (worker_skipped w h) e = e
    Step-held (worker_idle waiting w h l) e = e

    -- In every interleaving of pushes, flushes and the worker of one service, failures of the
    -- stores included, the lines that are stored, taken by a flush under way, or buffered are the
    -- accepted ones, and once more those that a failing append had stored before it failed and
    -- whose batch was buffered again: no line is lost, and none is doubled otherwise. It holds of
    -- the number of lines that pass any test.
    pub accepted-held :
        (seed : HashMap ContainerId Checkpoint) {t : System}
        → Run hash max (start seed) t
        → count p t.accepted + count p t.repeated
          ≡ count p t.appended + count p (lines_of t.in_flight) + count p t.service.lines
    accepted-held seed here = refl
    accepted-held seed (step r st) = Step-held st (accepted-held seed r)
