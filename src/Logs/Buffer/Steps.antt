-- ===== src/Logs/Buffer/Steps.antt =====
-- src/logs/buffer.rs: the interleavings of pushes, flushes and the worker of one service. Each
-- constructor is one critical section of the code; between two of them any other may run.
use vpsiner.Prelude.{
  ℕ, suc, ℤ, String, Bool, true, false, keep, if◌then◌else◌, List, [], ◌∷◌, ◌++◌, none, some,
  HashMap, ◌≡◌,
}
use vpsiner.Model.ContainerId.{ContainerId}
use vpsiner.Model.Logs.{LogStream, LogLine}
use vpsiner.Logs.Buffer.{
  Service, Batch, Checkpoint, seeded, dropped, flush_now, scheduled, push, take_batch, restore,
  advance_all,
}

-- The loop of `spawn_flush_worker`: it waits for a request or the end of `keep_alive`, it has taken
-- a request and lets others join it, it is about to flush, or its flush is under way.
pub data Worker : Type 0 where
  waits : Worker
  debounces : Worker
  drained : Worker
  flushes : Worker

-- The service, its worker, the flushes under way in the order in which they began, what the stores
-- hold, and the notifications sent. For the theorems, `accepted` has the lines that the
-- deduplication let through, and `repeated` those that failed appends have stored. `appended` lists
-- the lines of a batch in its order, in which each week of them is stored.
pub record System : Type 0 where
  pub service : Service
  pub worker : Worker
  pub in_flight : List Batch
  pub appended : List LogLine
  pub stored : HashMap ContainerId Checkpoint
  pub notified : ℕ
  pub accepted : List LogLine
  pub repeated : List LogLine

abbrev pub start : HashMap ContainerId Checkpoint → System
start checkpoints = record {
  service = seeded checkpoints;
  worker = waits;
  in_flight = [];
  appended = [];
  stored = checkpoints;
  notified = 0;
  accepted = [];
  repeated = [];
}

-- The worker goes back to waiting after its own flush, and is not concerned by another.
abbrev pub after_flush : Batch → Worker → Worker
after_flush batch worker = if batch.by_worker then waits else worker

-- What `append` has stored of its lines when it fails: it commits one week after another, so all
-- lines of some weeks, those of the times for which `commits` holds.
unfoldable pub committed : (ℤ → Bool) → List LogLine → List LogLine
committed commits lines = keep (λ l. commits l.ts) lines

module _ (hash : LogStream → String → ℕ) (max_buffered_lines : ℕ) where
  pub data Step (s : System) : System → Type 0 where
    push_dropped :
        (line : LogLine) → push hash max_buffered_lines s.service line ≡ dropped → Step s s
    push_scheduled :
        (line : LogLine) (next : Service)
        → push hash max_buffered_lines s.service line ≡ scheduled next
        → Step s (record s { service = next; accepted = s.accepted ++ line ∷ [] })
    -- The flush that the caller now waits for is a later `begin_flush`.
    push_flush :
        (line : LogLine) (next : Service)
        → push hash max_buffered_lines s.service line ≡ flush_now next
        → Step s (record s { service = next; accepted = s.accepted ++ line ∷ [] })
    begin_flush :
        (next : Service) (batch : Batch)
        → take_batch false s.service ≡ some (next, batch)
        → Step s (record s { service = next; in_flight = s.in_flight ++ batch ∷ [] })
    -- All lines are buffered again, those of the committed weeks too.
    append_failed :
        (before after : List Batch) (batch : Batch) (commits : ℤ → Bool)
        → s.in_flight ≡ before ++ batch ∷ after
        → Step s (record s {
          service = restore s.service batch.lines;
          worker = after_flush batch s.worker;
          in_flight = before ++ after;
          appended = s.appended ++ committed commits batch.lines;
          repeated = s.repeated ++ committed commits batch.lines;
        })
    -- `append` succeeded, and `id_of` failed: no checkpoint is stored.
    append_only :
        (before after : List Batch) (batch : Batch)
        → s.in_flight ≡ before ++ batch ∷ after
        → Step s (record s {
          worker = after_flush batch s.worker;
          in_flight = before ++ after;
          appended = s.appended ++ batch.lines;
          notified = suc s.notified;
        })
    append_stored :
        (before after : List Batch) (batch : Batch) (succeeds : ContainerId → Bool)
        → s.in_flight ≡ before ++ batch ∷ after
        → Step s (record s {
          worker = after_flush batch s.worker;
          in_flight = before ++ after;
          appended = s.appended ++ batch.lines;
          stored = advance_all succeeds s.stored batch.checkpoints;
          notified = suc s.notified;
        })
    -- The worker receives a request, and sleeps.
    worker_woken :
        s.worker ≡ waits
        → s.service.flush_tx ≡ some true
        → Step s (record s {
          service = record (s.service) { flush_tx = some false };
          worker = debounces;
        })
    -- The requests that came meanwhile are taken too.
    worker_drained :
        (waiting : Bool)
        → s.worker ≡ debounces
        → s.service.flush_tx ≡ some waiting
        → Step s
            (record s { service = record (s.service) { flush_tx = some false }; worker = drained })
    worker_began :
        (next : Service) (batch : Batch)
        → s.worker ≡ drained
        → take_batch true s.service ≡ some (next, batch)
        → Step s
            (record s { service = next; worker = flushes; in_flight = s.in_flight ++ batch ∷ [] })
    -- Its flush finds no line.
    worker_skipped :
        s.worker ≡ drained → take_batch true s.service ≡ none → Step s (record s { worker = waits })
    -- The worker has waited for `keep_alive`, finds no line, and ends.
    worker_idle :
        (waiting : Bool)
        → s.worker ≡ waits
        → s.service.flush_tx ≡ some waiting
        → s.service.lines ≡ []
        → Step s (record s { service = record (s.service) { flush_tx = none } })

  pub data Run (s : System) : System → Type 0 where
    here : Run s s
    step : {t u : System} → Run s t → Step t u → Run s u
