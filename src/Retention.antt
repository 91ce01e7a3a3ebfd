-- ===== src/Retention.antt =====
-- src/retention.rs: one pass of the cleanup. The stores of metrics and of logs are seen by their
-- answers only, the tables of the metadata store and the registry are states.
pub mod Reclaim
pub mod Boundary
use vpsiner.Prelude.{
  ℕ, ◌*◌, String, Bool, true, false, List, [], Option, none, some, ℤ, pos, negsuc, ◌-ℤ◌, ◌*ℤ◌,
  wrap_i64, leb, pos_part, neg_part, ◌>>=◌, ◌&&◌, if◌then◌else◌,
}
use vpsiner.Error.{AppResult, ok, err}
use vpsiner.Model.Metrics.{max_bucket_ms}
use vpsiner.Metadata.Checkpoints
use vpsiner.Metadata.Checkpoints.{CheckpointRow}
use vpsiner.Metadata.Registry.{Registry, touch_interval_ms, reclaim_before}

abbrev pub max_watermark_lag_ms : ℕ
max_watermark_lag_ms = touch_interval_ms

-- What the stores answer, and whether the two statements on the metadata are refused.
pub record Answers : Type 0 where
  pub metrics_cleaned : AppResult ℕ
  pub logs_removed : AppResult (List String)
  pub checkpoints_refused : Bool
  pub services_refused : Bool

pub record Metadata : Type 0 where
  pub checkpoints : List CheckpointRow
  pub registry : Registry

abbrev pub is_ok {ℓ} : {A : Type ℓ} → AppResult A → Bool
is_ok (ok x) = true
is_ok (err e) = false

-- `cutoff_ms - max_bucket_ms() as i64 - MAX_WATERMARK_LAG_MS`
unfoldable pub reclaim_cutoff_ms : ℤ → ℤ
reclaim_cutoff_ms cutoff_ms =
    wrap_i64 (wrap_i64 (cutoff_ms -ℤ pos max_bucket_ms) -ℤ pos max_watermark_lag_ms)

-- The checkpoints go once the logs are gone, the services once both are; errors are only logged.
unfoldable pub cleanup_once : Answers → ℤ → Metadata → Metadata
unfolding reclaim_cutoff_ms
cleanup_once answers cutoff_ms m =
    let checkpoints =
      (Checkpoints.delete_before answers.checkpoints_refused cutoff_ms m.checkpoints).1 in
    let registry =
      (reclaim_before answers.services_refused (reclaim_cutoff_ms cutoff_ms) m.registry).1 in
    record {
      checkpoints = if is_ok answers.logs_removed then checkpoints else m.checkpoints;
      registry =
          if is_ok answers.metrics_cleaned && is_ok answers.logs_removed
          then registry
          else m.registry;
    }

-- The days of `time::Date`, from year -9999 to year 9999, as days since 1970-01-01.
abbrev pub is_date : ℤ → Bool
is_date day = leb (neg_part day) 4371587 && leb (pos_part day) 2932896

-- `Date - Duration` of some days; `none` is its panic on a date out of range.
abbrev pub days_before : ℤ → ℕ → Option ℤ
days_before day n = if is_date (day -ℤ pos n) then some (day -ℤ pos n) else none

-- `retention_cutoff_ms` on the days since 1970-01-01: the Monday of the current week, which is
-- `days_since_monday` back, less the weeks kept, in milliseconds.
unfoldable pub retention_cutoff_ms : ℤ → ℕ → ℕ → Option ℤ
retention_cutoff_ms today days_since_monday retention_weeks = do
  current_week ← days_before today days_since_monday
  cutoff ← days_before current_week (7 * retention_weeks)
  some (cutoff *ℤ pos (24 * 60 * 60 * 1000))
