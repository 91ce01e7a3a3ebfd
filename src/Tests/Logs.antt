-- ===== src/Tests/Logs.antt =====
-- src/logs/buffer.rs: two lines, one flush that fails and one that succeeds.
use vpsiner.Prelude.{
  ℕ, suc, ◌+◌, ◌≡◌, ◌≢◌, ◌↔◌, ◌⊎◌, subst, subst₂, keep, eq_ℤ, inl, inr, refl, String, Bool, true,
  false, List, [], ◌∷◌, ◌++◌, Option, some, none, ℤ, pos, arith, HashMap, lookup, length, Eq,
  int_laws,
}
use vpsiner.Model.ContainerId.{ContainerId, Eq-ContainerId, eq_id}
use vpsiner.Model.Logs.{LogStream, LogLine, stdout}
use vpsiner.Logs.Buffer.{
  Service, Batch, Checkpoint, Pushed, dropped, scheduled, flush_now, push, take_batch, accept,
  is_duplicate, restore, advance_all,
}
use vpsiner.Logs.Buffer.Steps.{
  System, waits, committed, worker_woken, worker_drained, worker_skipped, start, Step,
  push_scheduled, push_flush, begin_flush, append_failed, append_stored, Run,
}
use vpsiner.Logs.Buffer.Delivery.{count, lines_of, accepted-held}
use vpsiner.Logs.Buffer.Dedup.{key, IsTracked, run-IsTracked}
use vpsiner.Logs.Buffer.Keys.{Any}
use vpsiner.Logs.Buffer.Order.{SerialRun, serial-InOrder}
use vpsiner.Logs.Buffer.Landed.{checkpoint-landed}
use vpsiner.Logs.Buffer.Stranded.{failed_flush-stranded}

abbrev hash : LogStream → String → ℕ
hash stream text = 5

abbrev cid : ContainerId
cid = record { bytes = 1 ∷ 2 ∷ 3 ∷ 4 ∷ 5 ∷ 6 ∷ [] }

abbrev line : ℕ → LogLine
line ts = record {
  ts = pos ts;
  service = "web";
  cid = cid;
  stream = stdout;
  level = none;
  line = "ready";
}

abbrev one : Service
one = record { lines = line 1 ∷ []; checkpoints = (cid, (pos 1, 5)) ∷ []; flush_tx = some true }

abbrev two : Service
two = record {
  lines = line 1 ∷ line 2 ∷ [];
  checkpoints = (cid, (pos 2, 5)) ∷ [];
  flush_tx = some true;
}

abbrev drained_two : Service
drained_two = record two { flush_tx = some false }

abbrev taken : Service
taken = record { lines = []; checkpoints = (cid, (pos 2, 5)) ∷ []; flush_tx = some false }

abbrev taken_later : Service
taken_later = record taken { flush_tx = some true }

abbrev batch : Batch
batch = record {
  by_worker = false;
  lines = line 1 ∷ line 2 ∷ [];
  checkpoints = (cid, (pos 2, 5)) ∷ [];
}

first_push : push hash 2 (start []).service (line 1) ≡ scheduled one
unfolding push accept is_duplicate lookup vpsiner.Prelude.insert eq_id
first_push = refl

second_push : push hash 2 one (line 2) ≡ flush_now two
unfolding push accept is_duplicate lookup vpsiner.Prelude.insert eq_id
second_push = refl

take_two : take_batch false drained_two ≡ some (taken, batch)
unfolding take_batch vpsiner.Logs.Buffer.cids vpsiner.Logs.Buffer.checkpoints_of lookup
    vpsiner.Prelude.insert eq_id
take_two = refl

take_again : take_batch false two ≡ some (taken_later, batch)
unfolding take_batch vpsiner.Logs.Buffer.cids vpsiner.Logs.Buffer.checkpoints_of lookup
    vpsiner.Prelude.insert eq_id
take_again = refl

take_none : take_batch true taken ≡ none
unfolding take_batch
take_none = refl

-- A caller's flush, for which the worker has left nothing to do.
abbrev flushing : System
flushing = record {
  service = taken;
  worker = waits;
  in_flight = batch ∷ [];
  appended = [];
  stored = [];
  notified = 0;
  accepted = line 1 ∷ line 2 ∷ [];
  repeated = [];
}

-- The append failed after it had committed the week of the first line.
abbrev first_week : ℤ → Bool
first_week ts = eq_ℤ ts (pos 1)

abbrev failed : System
failed = record flushing {
  service = two;
  in_flight = [];
  appended = line 1 ∷ [];
  repeated = line 1 ∷ [];
}

abbrev landed : System
landed = record failed {
  service = taken_later;
  appended = line 1 ∷ line 1 ∷ line 2 ∷ [];
  stored = (cid, (pos 2, 5)) ∷ [];
  notified = 1;
}

restored : restore taken (line 1 ∷ line 2 ∷ []) ≡ two
unfolding restore
restored = refl

committed_first : committed first_week (line 1 ∷ line 2 ∷ []) ≡ line 1 ∷ []
unfolding committed
committed_first = refl

advanced : advance_all (λ c. true) [] ((cid, (pos 2, 5)) ∷ []) ≡ (cid, (pos 2, 5)) ∷ []
unfolding advance_all lookup vpsiner.Prelude.insert eq_id
advanced = refl

fails : Step hash 2 flushing failed
fails =
    subst₂
      (λ s lines.
        Step hash 2 flushing
          (record flushing { service = s; in_flight = []; appended = lines; repeated = lines }))
      restored committed_first (append_failed [] [] batch first_week refl)

lands : Step hash 2 (record failed { service = taken_later; in_flight = batch ∷ [] }) landed
lands =
    subst
      (λ rows.
        Step hash 2 (record failed { service = taken_later; in_flight = batch ∷ [] })
          (record landed { stored = rows }))
      advanced (append_stored [] [] batch (λ c. true) refl)

-- Two pushes, and the worker is woken just before the second one's flush takes the lines.
run_flushing : Run hash 2 (start []) flushing
run_flushing =
    Run.step
      (Run.step
        (Run.step
          (Run.step
            (Run.step (Run.step Run.here (push_scheduled (line 1) one first_push))
              (push_flush (line 2) two second_push))
            (worker_woken refl refl))
          (worker_drained false refl refl))
        (begin_flush taken batch take_two))
      (worker_skipped refl take_none)

run : Run hash 2 (start []) landed
run =
    Run.step (Run.step (Run.step run_flushing fails) (begin_flush taken_later batch take_again))
      lands

serial_flushing : SerialRun hash 2 (start []) flushing
serial_flushing =
    SerialRun.step
      (SerialRun.step
        (SerialRun.step
          (SerialRun.step
            (SerialRun.step
              (SerialRun.step SerialRun.here (push_scheduled (line 1) one first_push) (omega arith))
              (push_flush (line 2) two second_push) (omega arith))
            (worker_woken refl refl) (omega arith))
          (worker_drained false refl refl) (omega arith))
        (begin_flush taken batch take_two) (omega arith))
      (worker_skipped refl take_none) (omega arith)

serial_run : SerialRun hash 2 (start []) landed
serial_run =
    SerialRun.step
      (SerialRun.step (SerialRun.step serial_flushing fails (omega arith))
        (begin_flush taken_later batch take_again) (omega arith))
      lands (omega arith)

accepted-held_example :
    count (λ l. true) landed.accepted + count (λ l. true) landed.repeated
    ≡ count (λ l. true) landed.appended
      + count (λ l. true) (lines_of landed.in_flight)
      + count (λ l. true) landed.service.lines
accepted-held_example = accepted-held (λ l. true) hash 2 [] run

-- The second line, which no failed append has stored.
abbrev is_second : LogLine → Bool
is_second l = eq_ℤ l.ts (pos 2)

serial-InOrder_example :
    keep is_second landed.appended
      ++ (keep is_second (lines_of landed.in_flight) ++ keep is_second landed.service.lines)
    ≡ keep is_second landed.accepted
serial-InOrder_example = serial-InOrder hash 2 [] serial_run is_second refl

run-IsTracked_example : IsTracked hash [] landed
run-IsTracked_example = run-IsTracked hash 2 run

stored_row : lookup cid landed.stored ≡ some (pos 2, 5)
unfolding lookup eq_id
stored_row = refl

checkpoint-landed_example :
    (lookup {V = Checkpoint} cid [] ≡ some (pos 2, 5))
    ⊎ Any (λ l. (l.cid ≡ cid) × (key hash l ≡ (pos 2, 5))) landed.appended
checkpoint-landed_example = checkpoint-landed hash 2 [] serial_run cid (pos 2, 5) stored_row

failed_flush-stranded_example :
    (t : System) × Run hash 2 flushing t
    × (t.service.lines ≡ batch.lines)
    × (t.service.flush_tx ≡ none)
    × (t.in_flight ≡ [])
    × (t.appended ≡ flushing.appended ++ committed first_week batch.lines)
failed_flush-stranded_example =
    failed_flush-stranded hash 2 flushing batch first_week
      (record { only = refl; of_caller = refl; empty = refl; worker = refl; no_request = refl })
