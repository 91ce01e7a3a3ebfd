-- ===== src/Logs/Buffer.antt =====
-- src/logs/buffer.rs: one service of the log buffer. The services of the buffer are independent
-- entries of a map; each has its buffered lines, the checkpoint of every container, and the
-- channel to its flush worker: `none` without a worker, else whether a request waits in it (its
-- capacity is one). `hash` stands for `DefaultHasher` over the stream and the text of a line.
pub mod Dedup
pub mod Steps
pub mod Delivery
pub mod Order
pub mod Keys
pub mod Landed
pub mod Stranded
use vpsiner.Prelude.{
  ℕ, String, Bool, true, false, ◌&&◌, ◌||◌, List, [], ◌∷◌, ◌++◌, Option, none, some, ℤ, ltb_ℤ, eq_ℤ,
  ltb, leb, ◌==◌, if◌then◌else◌, length, HashMap, lookup, insert, is_eq, map,
}
use vpsiner.Model.ContainerId.{ContainerId, Eq-ContainerId}
use vpsiner.Model.Logs.{LogStream, LogLine}

-- `(ts, line_hash)`
abbrev pub Checkpoint : Type 0
Checkpoint = ℤ × ℕ

pub record Service : Type 0 where
  pub lines : List LogLine
  pub checkpoints : HashMap ContainerId Checkpoint
  pub flush_tx : Option Bool

-- `seed_service`, and `service_state` for a service that was never seen (no checkpoints).
abbrev pub seeded : HashMap ContainerId Checkpoint → Service
seeded checkpoints = record { lines = []; checkpoints = checkpoints; flush_tx = none }

-- A flush that has taken its lines and waits for the store: one of the worker, or one that a caller
-- of `push` or `flush_all` waits for.
pub record Batch : Type 0 where
  pub by_worker : Bool
  pub lines : List LogLine
  pub checkpoints : List (ContainerId × Checkpoint)

-- The order of `[u8; 6]`.
lt_bytes : List ℕ → List ℕ → Bool
lt_bytes [] [] = false
lt_bytes [] (b ∷ bs) = true
lt_bytes (a ∷ as') [] = false
lt_bytes (a ∷ as') (b ∷ bs) = ltb a b || (a == b && lt_bytes as' bs)

insert_id : ContainerId → List ContainerId → List ContainerId
unfolding lt_bytes
insert_id id [] = id ∷ []
insert_id id (other ∷ rest) =
    if is_eq id other
    then other ∷ rest
    else if lt_bytes id.bytes other.bytes
    then id ∷ other ∷ rest
    else other ∷ insert_id id rest

-- The ids of the lines after `sort_unstable` and `dedup`: ascending, each once.
unfoldable pub cids : List LogLine → List ContainerId
unfolding insert_id
cids [] = []
cids (line ∷ rest) = insert_id line.cid (cids rest)

-- The `filter_map` over the ids.
unfoldable pub checkpoints_of :
    HashMap ContainerId Checkpoint → List ContainerId → List (ContainerId × Checkpoint)
checkpoints_of known [] = []
checkpoints_of known (cid ∷ rest) = elim (lookup cid known) [
  | none ↦ checkpoints_of known rest
  | some checkpoint ↦ (cid, checkpoint) ∷ checkpoints_of known rest
]

-- The first locked part of `flush_service`; `none` where no line is buffered.
unfoldable pub take_batch : Bool → Service → Option (Service × Batch)
take_batch by_worker s = elim s.lines [
  | [] ↦ none
  | first ∷ rest ↦ some (
    record s { lines = [] },
    record {
      by_worker = by_worker;
      lines = first ∷ rest;
      checkpoints = checkpoints_of s.checkpoints (cids (first ∷ rest));
    },
  )
]

-- `request_service_flush`: a request for the worker, if there is one.
unfoldable pub request_flush : Service → Service
request_flush s = elim s.flush_tx [ none ↦ s | some waiting ↦ record s { flush_tx = some true } ]

-- The second locked part, after a failed `append`: the lines go back in front of newer ones.
unfoldable pub restore : Service → List LogLine → Service
unfolding request_flush
restore s lines =
    request_flush
      (record s { lines = elim s.lines [ [] ↦ lines | newer ∷ rest ↦ lines ++ (newer ∷ rest) ] })

-- `schedule_flush`: spawns the worker where there is none, and leaves it a request.
unfoldable pub schedule_flush : Service → Service
schedule_flush s = record s { flush_tx = some true }

-- What a push does next: return, wait for a flush of its own, or leave it to the worker.
pub data Pushed : Type 0 where
  dropped : Pushed
  flush_now : Service → Pushed
  scheduled : Service → Pushed

-- `advance_log_checkpoint` of src/metadata/mod.rs for one service: the row is written unless a
-- later time is stored.
unfoldable pub advance :
    HashMap ContainerId Checkpoint → ContainerId → Checkpoint → HashMap ContainerId Checkpoint
advance rows cid (ts, line_hash) = elim (lookup cid rows) [
  | none ↦ insert cid (ts, line_hash) rows
  | some (stored, _) ↦ if ltb_ℤ ts stored then rows else insert cid (ts, line_hash) rows
]

-- The loop over the checkpoints of a batch; `succeeds` is what the store answers for each id.
unfoldable pub advance_all :
    (ContainerId → Bool)
    → HashMap ContainerId Checkpoint
    → List (ContainerId × Checkpoint)
    → HashMap ContainerId Checkpoint
unfolding advance
advance_all succeeds rows [] = rows
advance_all succeeds rows ((cid, checkpoint) ∷ rest) =
    advance_all succeeds (if succeeds cid then advance rows cid checkpoint else rows) rest

module _ (hash : LogStream → String → ℕ) where
  abbrev pub hash_line : LogLine → ℕ
  hash_line line = hash line.stream line.line

  -- Whether the deduplication drops the line.
  unfoldable pub is_duplicate : Service → LogLine → Bool
  is_duplicate s line = elim (lookup line.cid s.checkpoints) [
    | none ↦ false
    | some (ts_last, hash_last) ↦
        ltb_ℤ line.ts ts_last || (eq_ℤ line.ts ts_last && hash_line line == hash_last)
  ]

  -- The locked part of `push`; `none` where the line is dropped.
  unfoldable pub accept : Service → LogLine → Option Service
  accept s line =
      if is_duplicate s line
      then none
      else some (record s {
        lines = s.lines ++ line ∷ [];
        checkpoints = insert line.cid (line.ts, hash_line line) s.checkpoints;
      })

  unfoldable pub push : ℕ → Service → LogLine → Pushed
  unfolding schedule_flush
  push max_buffered_lines s line = elim (accept s line) [
    | none ↦ dropped
    | some s' ↦
        if leb max_buffered_lines (length s'.lines)
        then flush_now s'
        else scheduled (schedule_flush s')
  ]
