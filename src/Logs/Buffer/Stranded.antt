-- ===== src/Logs/Buffer/Stranded.antt =====
-- src/logs/buffer.rs: a failed flush whose worker has ended meanwhile.
use mathlib.Core.List.{append-nil}
use vpsiner.Prelude.{ℕ, ℤ, ◌≡◌, refl, ◌∙◌, String, Bool, false, none, some, List, [], ◌∷◌, ◌++◌}
use vpsiner.Model.Logs.{LogStream, LogLine}
use vpsiner.Logs.Buffer.{Service, Batch, request_flush, restore}
use vpsiner.Logs.Buffer.Steps.{
  System, waits, after_flush, committed, append_failed, worker_idle, Run, here, step,
}
use vpsiner.Logs.Buffer.Delivery.{restore-lines}

restore_idle :
    (s : Service) (lines : List LogLine) → s.flush_tx ≡ none → (restore s lines).flush_tx ≡ none
unfolding restore
restore_idle s lines e = rw (e, request_flush) e

-- A flush of a caller is under way, no line was buffered meanwhile, and the worker waits for a
-- request that is not there.
pub record WorkerWaits (s : System) (batch : Batch) : Type 0 where
  pub only : s.in_flight ≡ batch ∷ []
  pub of_caller : batch.by_worker ≡ false
  pub empty : s.service.lines ≡ []
  pub worker : s.worker ≡ waits
  pub no_request : s.service.flush_tx ≡ some false

-- With a caller's flush as the only one under way, nothing buffered, and a worker that waits
-- without a request, there is a run in which the worker ends and the append fails, whatever weeks
-- it has stored: then all lines of the flush are buffered again, no flush is under way, and the
-- service has no worker and no request for one.
pub failed_flush-stranded :
    (hash : LogStream → String → ℕ) (max : ℕ) (s : System) (batch : Batch) (commits : ℤ → Bool)
    → WorkerWaits s batch
    → (t : System) × Run hash max s t
      × (t.service.lines ≡ batch.lines)
      × (t.service.flush_tx ≡ none)
      × (t.in_flight ≡ [])
      × (t.appended ≡ s.appended ++ committed commits batch.lines)
failed_flush-stranded hash max s batch commits w =
    let idle = record s { service = record (s.service) { flush_tx = none } } in
    let t = record idle {
      service = restore idle.service batch.lines;
      worker = after_flush batch s.worker;
      in_flight = [];
      appended = s.appended ++ committed commits batch.lines;
      repeated = s.repeated ++ committed commits batch.lines;
    } in
    (
      t,
      step (step here (worker_idle false w.worker w.no_request w.empty))
          (append_failed [] [] batch commits w.only),
      restore-lines idle.service batch.lines ∙ rw w.empty (append-nil batch.lines),
      restore_idle idle.service batch.lines refl,
      refl,
      refl,
    )
