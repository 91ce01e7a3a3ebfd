-- ===== src/Logs/Buffer/Landed.antt =====
-- src/logs/buffer.rs: a stored checkpoint never runs ahead of the stored lines.
use vpsiner.Prelude.{
  ℕ, ◌≤◌, ◌≡◌, refl, ap, ◌∙◌, String, some, List, [], ◌∷◌, ◌++◌, HashMap, ◌⊎◌, inl, inr, length,
  lookup, All, All-append, Bool, true, false,
}
use vpsiner.Model.ContainerId.{ContainerId, Eq-ContainerId}
use vpsiner.Model.Logs.{LogStream, LogLine}
use vpsiner.Logs.Buffer.{Service, Batch, Checkpoint, take_batch, advance_all}
use vpsiner.Logs.Buffer.Steps.{
  System, start, Step, push_dropped, push_scheduled, push_flush, begin_flush, append_failed,
  committed, append_only, append_stored, worker_woken, worker_drained, worker_began, worker_skipped,
  worker_idle,
}
use vpsiner.Logs.Buffer.Delivery.{lines_of}
use vpsiner.Logs.Buffer.Dedup.{key, latest, IsTracked, Step-IsTracked, latest-append}
use vpsiner.Logs.Buffer.Keys.{
  Any, Any-append_left, Any-append_right, Of, Backed, latest-Any, take_batch-Backed, Backed-Any,
  advance_all-from,
}
use vpsiner.Logs.Buffer.Order.{SerialRun, here, step, InOrder, run-InOrder, serial-few, alone}

module _ (hash : LogStream → String → ℕ) (max : ℕ) (seed : HashMap ContainerId Checkpoint) where
  abbrev BatchesBacked : List Batch → Type 0
  BatchesBacked = All (λ b. All (Backed hash b.lines) b.checkpoints)

  pub record IsLanded (s : System) : Type 0 where
    pub batches : BatchesBacked s.in_flight
    pub rows :
        (cid : ContainerId) (c : Checkpoint)
        → lookup cid s.stored ≡ some c
        → (lookup cid seed ≡ some c) ⊎ Any (Of hash cid c) s.appended

  -- The checkpoint of a container with a buffered line is the key of one of its buffered lines.
  buffered-keys :
      (s : System)
      → IsTracked hash seed s
      → InOrder s
      → (cid : ContainerId) → Any (λ l. l.cid ≡ cid) s.service.lines
      → (c : Checkpoint) × (lookup cid s.service.checkpoints ≡ some c)
        × Any (Of hash cid c) s.service.lines
  buffered-keys s v order cid h =
      let earlier =
        latest hash (latest hash (λ c. lookup c seed) order.left) (lines_of s.in_flight) in
      let (c, e, r) = latest-Any hash earlier s.service.lines cid h in
      let split : latest hash (λ c. lookup c seed) s.accepted
          ≡ latest hash earlier s.service.lines =
        rw (← order.order) (
          latest-append hash _ order.left _
          ∙ latest-append hash _ (lines_of s.in_flight) s.service.lines) in
      (c, v.known cid ∙ ap (λ f. f cid) split ∙ e, r)

  landed_rows :
      (s : System) (more : List LogLine)
      → IsLanded s
      → (cid : ContainerId) (c : Checkpoint) → lookup cid s.stored ≡ some c
      → (lookup cid seed ≡ some c) ⊎ Any (Of hash cid c) (s.appended ++ more)
  landed_rows s more v cid c h = elim (v.rows cid c h) [
    | inl old ↦ inl old
    | inr found ↦ inr (Any-append_left (Of hash cid c) s.appended more found)
  ]

  written_rows :
      (s : System) (b : Batch) (f : ContainerId → Bool)
      → IsLanded s
      → All (Backed hash b.lines) b.checkpoints
      → (cid : ContainerId) (c : Checkpoint)
      → lookup cid (advance_all f s.stored b.checkpoints) ≡ some c
      → (lookup cid seed ≡ some c) ⊎ Any (Of hash cid c) (s.appended ++ b.lines)
  written_rows s b f v backed cid c h = elim (advance_all-from f s.stored b.checkpoints cid c h) [
    | inl old ↦ landed_rows s b.lines v cid c old
    | inr new ↦ inr (
        Any-append_right (Of hash cid c) s.appended b.lines
          (Backed-Any hash b.lines b.checkpoints cid c backed new))
  ]

  taken_batches :
      (s : System) (to : Service) (b : Batch) (by_worker : Bool)
      → take_batch by_worker s.service ≡ some (to, b)
      → IsTracked hash seed s
      → InOrder s
      → IsLanded s
      → BatchesBacked (s.in_flight ++ b ∷ [])
  taken_batches s to b by_worker h tr o v =
      All-append _ s.in_flight (b ∷ []) v.batches
        (take_batch-Backed hash by_worker s.service to b (buffered-keys s tr o) h, tt)

  Step-IsLanded :
      {s t : System}
      → Step hash max s t
      → length s.in_flight ≤ 1
      → length t.in_flight ≤ 1
      → IsTracked hash seed s
      → InOrder s
      → IsLanded s
      → IsLanded t
  Step-IsLanded (push_dropped l h) few few' tr o v = v
  Step-IsLanded (push_scheduled l to h) few few' tr o v = record {
    batches = v.batches;
    rows = v.rows;
  }
  Step-IsLanded (push_flush l to h) few few' tr o v = record { batches = v.batches; rows = v.rows }
  Step-IsLanded {s} (begin_flush to b h) few few' tr o v = record {
    batches = taken_batches s to b false h tr o v;
    rows = v.rows;
  }
  Step-IsLanded {s} (append_failed before behind b commits h) few few' tr o v =
      let (x, y, only) = alone hash max s before behind b h few in
      record { batches = rw (x, y) tt; rows = landed_rows s (committed commits b.lines) v }
  Step-IsLanded {s} (append_only before behind b h) few few' tr o v =
      let (x, y, only) = alone hash max s before behind b h few in
      record { batches = rw (x, y) tt; rows = landed_rows s b.lines v }
  Step-IsLanded {s} (append_stored before behind b f h) few few' tr o v =
      let (x, y, only) = alone hash max s before behind b h few in
      let (backed, _) = rw only at v.batches in
      record { batches = rw (x, y) tt; rows = written_rows s b f v backed }
  Step-IsLanded (worker_woken w h) few few' tr o v = record { batches = v.batches; rows = v.rows }
  Step-IsLanded (worker_drained waiting w h) few few' tr o v = record {
    batches = v.batches;
    rows = v.rows;
  }
  Step-IsLanded {s} (worker_began to b w h) few few' tr o v = record {
    batches = taken_batches s to b true h tr o v;
    rows = v.rows;
  }
  Step-IsLanded (worker_skipped w h) few few' tr o v = record { batches = v.batches; rows = v.rows }
  Step-IsLanded (worker_idle waiting w h l) few few' tr o v = record {
    batches = v.batches;
    rows = v.rows;
  }

  serial-IsTracked : {t : System} → SerialRun hash max (start seed) t → IsTracked hash seed t
  serial-IsTracked here = record { known = λ cid. refl; fresh = tt }
  serial-IsTracked (step r st few) = Step-IsTracked hash max st (serial-IsTracked r)

  serial-IsLanded : {t : System} → SerialRun hash max (start seed) t → IsLanded t
  serial-IsLanded here = record { batches = tt; rows = λ cid c h. inl h }
  serial-IsLanded (step r st few) =
      Step-IsLanded st (serial-few hash max seed r) few (serial-IsTracked r)
        (run-InOrder hash max seed r) (serial-IsLanded r)

  -- In runs with at most one flush under way at a time, a stored checkpoint is the one that the
  -- run began with, or the time and hash of a line of its container that has been stored.
  pub checkpoint-landed :
      {t : System}
      → SerialRun hash max (start seed) t
      → (cid : ContainerId) (c : Checkpoint) → lookup cid t.stored ≡ some c
      → (lookup cid seed ≡ some c) ⊎ Any (λ l. (l.cid ≡ cid) × (key hash l ≡ c)) t.appended
  checkpoint-landed r = (serial-IsLanded r).rows
