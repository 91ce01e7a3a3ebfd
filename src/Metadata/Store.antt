-- ===== src/Metadata/Store.antt =====
-- src/metadata/mod.rs: the `services` table and the statements that work on it. A statement that
-- SQLite refuses changes nothing; whether it is refused is an argument, `refused`.
pub mod Table
pub mod Statements
use vpsiner.Prelude.{
  ℕ, ◌+◌, ◌^◌, String, Bool, List, [], ◌∷◌, ◌++◌, Option, none, some, ◌&&◌, ℤ, ltb_ℤ, max_ℤ, ltb,
  ◌==◌, if◌then◌else◌, is_eq, Eq-String,
}
use vpsiner.Error.{AppResult, ok, err, storage}
use vpsiner.Model.Metrics.{ServiceId}

pub record ServiceRow : Type 0 where
  pub sid : ℕ
  pub name : String
  pub last_seen_ms : ℤ

-- The rows, and the id that `AUTOINCREMENT` gives out next: ids are never used again.
pub record Services : Type 0 where
  pub rows : List ServiceRow
  pub next_sid : ℕ

-- `u32::try_from`
unfoldable pub service_id : ℕ → AppResult ServiceId
service_id value = if ltb value (2 ^ 32) then ok value else err storage

-- The row that a name conflicts with.
unfoldable pub find_name : String → List ServiceRow → Option ServiceRow
find_name name [] = none
find_name name (row ∷ rest) = if is_eq row.name name then some row else find_name name rest

unfoldable pub update_seen : String → ℤ → List ServiceRow → List ServiceRow
update_seen name now [] = []
update_seen name now (row ∷ rest) =
    (if is_eq row.name name then record row { last_seen_ms = max_ℤ row.last_seen_ms now } else row)
    ∷ update_seen name now rest

unfoldable pub resolve_service : Bool → String → ℤ → Services → AppResult ServiceId × Services
unfolding service_id
resolve_service Bool.true name now_ms db = (err storage, db)
resolve_service Bool.false name now_ms db = elim (find_name name db.rows) [
  | none ↦ (
    service_id db.next_sid,
    record {
      rows = db.rows ++ record { sid = db.next_sid; name = name; last_seen_ms = now_ms } ∷ [];
      next_sid = db.next_sid + 1;
    },
  )
  | some row ↦ (service_id row.sid, record db { rows = update_seen name now_ms db.rows })
]

unfoldable pub touch_rows : ServiceId → ℤ → List ServiceRow → List ServiceRow
touch_rows sid now [] = []
touch_rows sid now (row ∷ rest) =
    (if row.sid == sid && ltb_ℤ row.last_seen_ms now
      then record row { last_seen_ms = now }
      else row)
    ∷ touch_rows sid now rest

unfoldable pub touch_service : Bool → ServiceId → ℤ → Services → AppResult (Unit {0}) × Services
unfolding touch_rows
touch_service Bool.true sid now_ms db = (err storage, db)
touch_service Bool.false sid now_ms db = (ok tt, record db { rows = touch_rows sid now_ms db.rows })

-- The rows that a cutoff spares, and the ids of those that it does not.
unfoldable pub spared : ℤ → List ServiceRow → List ServiceRow
spared cutoff [] = []
spared cutoff (row ∷ rest) =
    let kept = spared cutoff rest in if ltb_ℤ row.last_seen_ms cutoff then kept else row ∷ kept

unfoldable pub expired : ℤ → List ServiceRow → List ℕ
expired cutoff [] = []
expired cutoff (row ∷ rest) =
    let more = expired cutoff rest in if ltb_ℤ row.last_seen_ms cutoff then row.sid ∷ more else more

-- `collect` into a result: the first error ends it.
unfoldable pub service_ids : List ℕ → AppResult (List ServiceId)
unfolding service_id
service_ids [] = ok []
service_ids (value ∷ rest) = elim (service_id value) [
  | err e ↦ err e
  | ok sid ↦ elim (service_ids rest) [ err e ↦ err e | ok sids ↦ ok (sid ∷ sids) ]
]

unfoldable pub delete_services_before : Bool → ℤ → Services → AppResult (List ServiceId) × Services
unfolding spared expired service_ids
delete_services_before Bool.true cutoff db = (err storage, db)
delete_services_before Bool.false cutoff db =
    (service_ids (expired cutoff db.rows), record db { rows = spared cutoff db.rows })

unfoldable pub list_rows : List ServiceRow → AppResult (List (ServiceId × String))
unfolding service_id
list_rows [] = ok []
list_rows (row ∷ rest) = elim (service_id row.sid) [
  | err e ↦ err e
  | ok sid ↦ elim (list_rows rest) [ err e ↦ err e | ok more ↦ ok ((sid, row.name) ∷ more) ]
]

unfoldable pub list_services : Bool → Services → AppResult (List (ServiceId × String))
unfolding list_rows
list_services Bool.true db = err storage
list_services Bool.false db = list_rows db.rows
