-- ===== src/Metadata/Checkpoints.antt =====
-- src/metadata/mod.rs: the `log_checkpoints` table and the statements that work on it. A statement
-- that SQLite refuses changes nothing; whether it is refused is an argument, `refused`.
pub mod Stored
use vpsiner.Prelude.{
  ℕ, ◌+◌, ◌-◌, ◌^◌, ◌%◌, Bool, true, false, List, [], ◌∷◌, ◌&&◌, Option, none, some, ℤ, pos, negsuc,
  wrap_i64, ltb_ℤ, leb_ℤ, ◌==◌, is_eq, if◌then◌else◌, length,
}
use vpsiner.Error.{AppResult, ok, err, storage}
use vpsiner.Model.ContainerId.{ContainerId, Eq-ContainerId}
use vpsiner.Model.Metrics.{ServiceId}
use vpsiner.Metadata.Store.{service_id}

-- `value as i64` and `value as u64`
unfoldable pub encode_hash : ℕ → ℤ
encode_hash value = wrap_i64 (pos value)

unfoldable pub decode_hash : ℤ → ℕ
decode_hash (pos n) = n % 2 ^ 64
decode_hash (negsuc n) = 2 ^ 64 - (n % 2 ^ 64 + 1)

pub record LogCheckpoint : Type 0 where
  pub ts : ℤ
  pub line_hash : ℕ

pub record LogCheckpointEntry : Type 0 where
  pub sid : ServiceId
  pub cid : ContainerId
  pub checkpoint : LogCheckpoint

-- A row as it is stored.
pub record CheckpointRow : Type 0 where
  pub sid : ℕ
  pub cid : ContainerId
  pub ts : ℤ
  pub line_hash : ℤ

abbrev pub is_row_of : ServiceId → ContainerId → CheckpointRow → Bool
is_row_of sid cid row = row.sid == sid && is_eq row.cid cid

-- The upsert on the key `(sid, cid)`, whose update only applies where the new time is not earlier.
unfoldable pub upsert : CheckpointRow → List CheckpointRow → List CheckpointRow
upsert new [] = new ∷ []
upsert new (row ∷ rest) =
    let later = upsert new rest in
    if is_row_of new.sid new.cid row
    then (if leb_ℤ row.ts new.ts
        then record row { ts = new.ts; line_hash = new.line_hash }
        else row)
      ∷ rest
    else row ∷ later

unfoldable pub advance_log_checkpoint :
    Bool
    → ServiceId
    → ContainerId
    → LogCheckpoint
    → List CheckpointRow
    → AppResult (Unit {0}) × List CheckpointRow
unfolding upsert encode_hash
advance_log_checkpoint true sid cid checkpoint rows = (err storage, rows)
advance_log_checkpoint false sid cid checkpoint rows = (
  ok tt,
  upsert
      (record {
        sid = sid;
        cid = cid;
        ts = checkpoint.ts;
        line_hash = encode_hash checkpoint.line_hash;
      })
      rows,
)

unfoldable pub find_row : ServiceId → ContainerId → List CheckpointRow → Option CheckpointRow
find_row sid cid [] = none
find_row sid cid (row ∷ rest) = if is_row_of sid cid row then some row else find_row sid cid rest

abbrev pub checkpoint_of : Option CheckpointRow → Option LogCheckpoint
checkpoint_of none = none
checkpoint_of (some row) = some (record { ts = row.ts; line_hash = decode_hash row.line_hash })

unfoldable pub load_log_checkpoint :
    Bool → ServiceId → ContainerId → List CheckpointRow → AppResult (Option LogCheckpoint)
unfolding find_row decode_hash
load_log_checkpoint true sid cid rows = err storage
load_log_checkpoint false sid cid rows = ok (checkpoint_of (find_row sid cid rows))

-- The rows of ids that fit `ServiceId`; the others are passed over.
unfoldable pub entries : List CheckpointRow → List LogCheckpointEntry
unfolding decode_hash service_id
entries [] = []
entries (row ∷ rest) =
    let more = entries rest in
    elim (service_id row.sid) [
      | err e ↦ more
      | ok sid ↦
          record {
            sid = sid;
            cid = row.cid;
            checkpoint = record { ts = row.ts; line_hash = decode_hash row.line_hash };
          }
          ∷ more
    ]

unfoldable pub list_log_checkpoints :
    Bool → List CheckpointRow → AppResult (List LogCheckpointEntry)
unfolding entries
list_log_checkpoints true rows = err storage
list_log_checkpoints false rows = ok (entries rows)

unfoldable pub rows_from : ℤ → List CheckpointRow → List CheckpointRow
rows_from cutoff_ms [] = []
rows_from cutoff_ms (row ∷ rest) =
    let kept = rows_from cutoff_ms rest in if ltb_ℤ row.ts cutoff_ms then kept else row ∷ kept

unfoldable pub delete_before : Bool → ℤ → List CheckpointRow → AppResult ℕ × List CheckpointRow
unfolding rows_from
delete_before true cutoff_ms rows = (err storage, rows)
delete_before false cutoff_ms rows =
    let kept = rows_from cutoff_ms rows in (ok (length rows - length kept), kept)
