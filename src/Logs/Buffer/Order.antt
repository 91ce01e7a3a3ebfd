-- ===== src/Logs/Buffer/Order.antt =====
-- src/logs/buffer.rs: while one flush at a time is under way, lines reach the store in the order
-- in which they were accepted, through any failures.
use mathlib.Core.List.{append-nil, append_assoc}
use vpsiner.Prelude.{
  ℕ, ℤ, Bool, true, false, some, sym, keep, keep-append, ◌≤◌, ◌≡◌, refl, ◌∙◌, String, List, [], ◌∷◌,
  ◌++◌, HashMap, arith, ◌⊎◌, inl, inr, length, length-append,
}
use vpsiner.Model.ContainerId.{ContainerId}
use vpsiner.Model.Logs.{LogStream, LogLine}
use vpsiner.Logs.Buffer.{
  Service, Batch, Checkpoint, flush_now, scheduled, push, take_batch, restore,
}
use vpsiner.Logs.Buffer.Steps.{
  System, Worker, flushes, after_flush, start, Step, push_dropped, push_scheduled, push_flush,
  begin_flush, append_failed, committed, append_only, append_stored, worker_woken, worker_drained,
  worker_began, worker_skipped, worker_idle,
}
use vpsiner.Logs.Buffer.Delivery.{
  lines_of, push-accept, take_batch-lines, accept-lines, restore-lines,
}

-- Runs in which no flush begins while another is under way.
pub data SerialRun (hash : LogStream → String → ℕ) (max : ℕ) (s : System) : System → Type 0 where
  here : SerialRun hash max s s
  step :
      {t u : System}
      → SerialRun hash max s t
      → Step hash max t u
      → length u.in_flight ≤ 1
      → SerialRun hash max s u

-- Some of the accepted lines have left the buffer: those of the appends that succeeded. The lines of
-- the flush under way and the buffered ones follow them. Where no failed append has stored a line
-- that passes a test, the stored lines that pass it are those of the lines that left.
pub record InOrder (s : System) : Type 0 where
  pub left : List LogLine
  pub order : left ++ (lines_of s.in_flight ++ s.service.lines) ≡ s.accepted
  pub stored : (q : LogLine → Bool) → keep q s.repeated ≡ [] → keep q s.appended ≡ keep q left

both_nil : {A : Type 0} (xs ys : List A) → xs ++ ys ≡ [] → (xs ≡ []) × (ys ≡ [])
both_nil [] ys h = (refl, h)
both_nil (x ∷ xs) ys h = absurd (cc h)

one_batch :
    (before behind : List Batch) (b : Batch)
    → length (before ++ b ∷ behind) ≤ 1
    → (before ≡ []) × (behind ≡ [])
one_batch [] [] b h = (refl, refl)
one_batch [] (x ∷ behind) b h = absurd (omega arith)
one_batch (x ∷ before) behind b h = absurd (omega (arith, length-append before (b ∷ behind)))

module _ (hash : LogStream → String → ℕ) (max : ℕ) where
  pushed-InOrder :
      (s : System) (to : Service) (l : LogLine)
      → (push hash max s.service l ≡ scheduled to) ⊎ (push hash max s.service l ≡ flush_now to)
      → InOrder s
      → InOrder (record s { service = to; accepted = s.accepted ++ l ∷ [] })
  pushed-InOrder s to l h v =
      let (a, accepted, same, _) = push-accept hash max s.service to l h in
      record {
        left = v.left;
        order = rw (same ∙ accept-lines hash s.service a l accepted, ← v.order) (simp append_assoc);
        stored = v.stored;
      }

  -- The flush under way is the only one.
  pub alone :
      (s : System) (before behind : List Batch) (b : Batch)
      → s.in_flight ≡ before ++ b ∷ behind
      → length s.in_flight ≤ 1
      → (before ≡ []) × (behind ≡ []) × (s.in_flight ≡ b ∷ [])
  alone s before behind b h few =
      let (x, y) = one_batch before behind b (rw (← h) few) in (x, y, h ∙ rw (x, y) refl)

  taken-InOrder :
      (s : System) (to : Service) (b : Batch) (by_worker : Bool) (worker : Worker)
      → take_batch by_worker s.service ≡ some (to, b)
      → length (s.in_flight ++ b ∷ []) ≤ 1
      → InOrder s
      → InOrder (record s { service = to; worker = worker; in_flight = s.in_flight ++ b ∷ [] })
  taken-InOrder s to b by_worker worker h few v =
      let (none_before, _) = one_batch s.in_flight [] b few in
      let (taken, left, _) = take_batch-lines by_worker s.service to b h in
      let e = rw none_before at v.order in
      record {
        left = v.left;
        order = rw (none_before, left, taken) (simp append-nil e);
        stored = v.stored;
      }

  -- An append that succeeds has stored the lines that leave.
  landed-InOrder :
      (s : System) (before behind : List Batch) (b : Batch)
      → s.in_flight ≡ before ++ b ∷ behind
      → length s.in_flight ≤ 1
      → InOrder s
      → (left : List LogLine) × (left ++ (lines_of (before ++ behind) ++ s.service.lines)
          ≡ s.accepted)
        × ((q : LogLine → Bool)
            → keep q s.repeated ≡ []
            → keep q (s.appended ++ b.lines) ≡ keep q left)
  landed-InOrder s before behind b h few v =
      let (x, y, only) = alone s before behind b h few in
      let e = rw only at v.order in
      (
        v.left ++ b.lines,
        rw (x, y) (simp append_assoc (simp append-nil at e)),
        λ q none_repeated.
            rw (keep-append, v.stored q none_repeated) (sym (keep-append q v.left b.lines)),
      )

  failed-InOrder :
      (s : System) (before behind : List Batch) (b : Batch) (commits : ℤ → Bool)
      → s.in_flight ≡ before ++ b ∷ behind
      → length s.in_flight ≤ 1
      → InOrder s
      → InOrder (record s {
        service = restore s.service b.lines;
        worker = after_flush b s.worker;
        in_flight = before ++ behind;
        appended = s.appended ++ committed commits b.lines;
        repeated = s.repeated ++ committed commits b.lines;
      })
  failed-InOrder s before behind b commits h few v =
      let (x, y, only) = alone s before behind b h few in
      let e = rw only at v.order in
      record {
        left = v.left;
        order = rw (x, y, restore-lines) (simp append-nil at e);
        stored = λ q h.
            let (old, new) =
              both_nil (keep q s.repeated) (keep q (committed commits b.lines))
                (sym (keep-append q s.repeated (committed commits b.lines)) ∙ h) in
            rw (keep-append, new) (append-nil (keep q s.appended) ∙ v.stored q old);
      }

  Step-InOrder :
      {s t : System}
      → Step hash max s t
      → length s.in_flight ≤ 1
      → length t.in_flight ≤ 1
      → InOrder s
      → InOrder t
  Step-InOrder (push_dropped l h) few few' v = v
  Step-InOrder {s} (push_scheduled l to h) few few' v = pushed-InOrder s to l (inl h) v
  Step-InOrder {s} (push_flush l to h) few few' v = pushed-InOrder s to l (inr h) v
  Step-InOrder {s} (begin_flush to b h) few few' v = taken-InOrder s to b false s.worker h few' v
  Step-InOrder {s} (append_failed before behind b commits h) few few' v =
      failed-InOrder s before behind b commits h few v
  Step-InOrder {s} (append_only before behind b h) few few' v =
      let (left, order, stored) = landed-InOrder s before behind b h few v in
      record { left = left; order = order; stored = stored }
  Step-InOrder {s} (append_stored before behind b f h) few few' v =
      let (left, order, stored) = landed-InOrder s before behind b h few v in
      record { left = left; order = order; stored = stored }
  Step-InOrder (worker_woken w h) few few' v = record {
    left = v.left;
    order = v.order;
    stored = v.stored;
  }
  Step-InOrder (worker_drained waiting w h) few few' v = record {
    left = v.left;
    order = v.order;
    stored = v.stored;
  }
  Step-InOrder {s} (worker_began to b w h) few few' v = taken-InOrder s to b true flushes h few' v
  Step-InOrder (worker_skipped w h) few few' v = record {
    left = v.left;
    order = v.order;
    stored = v.stored;
  }
  Step-InOrder (worker_idle waiting w h l) few few' v = record {
    left = v.left;
    order = v.order;
    stored = v.stored;
  }

  pub serial-few :
      (seed : HashMap ContainerId Checkpoint) {t : System}
      → SerialRun hash max (start seed) t
      → length t.in_flight ≤ 1
  serial-few seed here = omega arith
  serial-few seed (step r st few) = few

  pub run-InOrder :
      (seed : HashMap ContainerId Checkpoint) {t : System}
      → SerialRun hash max (start seed) t
      → InOrder t
  run-InOrder seed here = record { left = []; order = refl; stored = λ q h. refl }
  run-InOrder seed (step r st few) = Step-InOrder st (serial-few seed r) few (run-InOrder seed r)

  -- In runs with at most one flush under way at a time, for any test that no line passes which a
  -- failing append had stored before it failed: the stored lines that pass it, those of the flush
  -- under way and the buffered ones are, one after another, the accepted lines that pass it, in
  -- the order of their acceptance.
  pub serial-InOrder :
      (seed : HashMap ContainerId Checkpoint) {t : System}
      → SerialRun hash max (start seed) t
      → (q : LogLine → Bool) → keep q t.repeated ≡ []
      → keep q t.appended ++ (keep q (lines_of t.in_flight) ++ keep q t.service.lines)
        ≡ keep q t.accepted
  serial-InOrder seed {t} r q none_repeated =
      let v = run-InOrder seed r in
      rw (v.stored q none_repeated, ← v.order, keep-append, keep-append) refl
