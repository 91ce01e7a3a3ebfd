-- ===== src/Logs/Rows.antt =====
-- src/logs/schema.rs and src/logs/store.rs: the table of a week database, with the statements that
-- the store puts together. `MATCH` of the full-text index is an argument.
pub mod Decoded
pub mod Readable
pub mod Inserted
use vpsiner.Prelude.{
  ℕ, ◌+◌, ◌^◌, Bool, true, false, not, ◌&&◌, ◌||◌, String, List, [], ◌∷◌, ◌++◌, map, Option, none,
  some, ◌>>=◌, ℤ, pos, ◌+ℤ◌, ◌-ℤ◌, wrap_i64, eq_ℤ, ltb_ℤ, leb_ℤ, max_ℤ, if◌then◌else◌, take, keep,
  Text, codes,
}
use vpsiner.Model.ContainerId.{from_bytes}
use vpsiner.Model.Logs.{
  LogStream, LogLevel, LogLine, LogFilter, LogCursor, stream_storage_code, level_storage_code,
  stream_from_storage_code, level_from_storage_code,
}
use vpsiner.Logs.Levels.{detect_level}
use mathlib.Core.List.{reverse}

pub record LogRow : Type 0 where
  pub id : ℤ
  pub ts_rel : ℤ
  pub cid : List ℕ
  pub stream : ℤ
  pub level : Option ℤ
  pub line : String

pub record StoredLog : Type 0 where
  pub ts : ℤ
  pub week : Text
  pub id : ℤ
  pub line : LogLine

pub data Direction : Type 0 where
  backward forward : Direction

-- The greatest id of a table, 0 if it is empty.
unfoldable pub last_id : List LogRow → ℤ
last_id [] = pos 0
last_id (r ∷ rows) = max_ℤ r.id (last_id rows)

abbrev pub level_code : Option LogLevel → Option ℤ
level_code none = none
level_code (some level) = some (level_storage_code level)

module _ (is_whitespace : ℕ → Bool) where
  -- The values that one line is stored with.
  unfoldable pub row_of : ℤ → ℤ → LogLine → LogRow
  unfolding detect_level stream_storage_code level_storage_code
  row_of week_start id l = record {
    id = id;
    ts_rel = wrap_i64 (l.ts -ℤ week_start);
    cid = l.cid.bytes;
    stream = stream_storage_code l.stream;
    level = level_code (detect_level is_whitespace (codes l.line));
    line = l.line;
  }

  -- The chunks of one transaction, one after another. A row without an id gets the next one.
  unfoldable pub insert_rows : ℤ → List LogLine → List LogRow → List LogRow
  unfolding row_of last_id
  insert_rows week_start [] rows = rows
  insert_rows week_start (l ∷ lines) rows =
      insert_rows week_start lines (rows ++ row_of week_start (last_id rows +ℤ pos 1) l ∷ [])

-- `ORDER BY ts_rel ASC, id ASC`
abbrev pub row_before : LogRow → LogRow → Bool
row_before a b = ltb_ℤ a.ts_rel b.ts_rel || (eq_ℤ a.ts_rel b.ts_rel && leb_ℤ a.id b.id)

unfoldable pub insert_ordered : LogRow → List LogRow → List LogRow
insert_ordered r [] = r ∷ []
insert_ordered r (x ∷ rows) =
    let rest = x ∷ insert_ordered r rows in if row_before r x then r ∷ x ∷ rows else rest

unfoldable pub order_rows : List LogRow → List LogRow
unfolding insert_ordered
order_rows [] = []
order_rows (r ∷ rows) = insert_ordered r (order_rows rows)

abbrev pub in_direction {ℓ} : {A : Type ℓ} → Direction → List A → List A
in_direction forward xs = xs
in_direction backward xs = reverse xs

-- `IN (…)`, which no NULL is in.
unfoldable pub in_codes : List ℤ → Option ℤ → Bool
in_codes codes none = false
in_codes [] (some c) = false
in_codes (d ∷ codes) (some c) = eq_ℤ d c || in_codes codes (some c)

abbrev pub in_levels : List LogLevel → Option ℤ → Bool
in_levels [] c = true
in_levels (l ∷ levels) c = in_codes (map level_storage_code (l ∷ levels)) c

abbrev pub in_streams : List LogStream → ℤ → Bool
in_streams [] c = true
in_streams (s ∷ streams) c = in_codes (map stream_storage_code (s ∷ streams)) (some c)

abbrev pub at_least : Option ℤ → ℤ → ℤ → Bool
at_least none week_start ts_rel = true
at_least (some from) week_start ts_rel = leb_ℤ (wrap_i64 (from -ℤ week_start)) ts_rel

abbrev pub at_most : Option ℤ → ℤ → ℤ → Bool
at_most none week_start ts_rel = true
at_most (some to) week_start ts_rel = leb_ℤ ts_rel (wrap_i64 (to -ℤ week_start))

unfoldable pub push_filters : LogFilter → ℤ → LogRow → Bool
unfolding in_codes
push_filters filter week_start r =
    at_least filter.from week_start r.ts_rel
    && at_most filter.to week_start r.ts_rel
    && in_levels filter.levels r.level
    && in_streams filter.streams r.stream

-- `cursor_week_start` is the start of the cursor's own week.
unfoldable pub push_cursor : LogCursor → ℤ → ℤ → Direction → LogRow → Bool
push_cursor cursor cursor_week_start week_start backward r =
    let relative_cursor_ts = wrap_i64 (cursor.ts -ℤ week_start) in
    if eq_ℤ week_start cursor_week_start
    then ltb_ℤ r.ts_rel relative_cursor_ts
      || (eq_ℤ r.ts_rel relative_cursor_ts && ltb_ℤ r.id cursor.id)
    else leb_ℤ r.ts_rel relative_cursor_ts
push_cursor cursor cursor_week_start week_start forward r =
    let relative_cursor_ts = wrap_i64 (cursor.ts -ℤ week_start) in
    if eq_ℤ week_start cursor_week_start
    then ltb_ℤ relative_cursor_ts r.ts_rel
      || (eq_ℤ r.ts_rel relative_cursor_ts && ltb_ℤ cursor.id r.id)
    else leb_ℤ relative_cursor_ts r.ts_rel

-- `SELECT … WHERE … ORDER BY … LIMIT …`
unfoldable pub select_rows : (LogRow → Bool) → Direction → ℕ → List LogRow → List LogRow
unfolding order_rows
select_rows where_holds direction limit rows =
    take limit (keep where_holds (in_direction direction (order_rows rows)))

-- A row whose stream or container cannot be read is left out.
unfoldable pub decode_row : String → Text → ℤ → LogRow → Option StoredLog
unfolding stream_from_storage_code level_from_storage_code from_bytes
decode_row service week week_start r = do
  stream ← stream_from_storage_code r.stream
  cid ← from_bytes r.cid
  some (record {
    ts = wrap_i64 (r.ts_rel +ℤ week_start);
    week = week;
    id = r.id;
    line = record {
      ts = wrap_i64 (r.ts_rel +ℤ week_start);
      service = service;
      cid = cid;
      stream = stream;
      level = r.level >>= level_from_storage_code;
      line = r.line;
    };
  })

unfoldable pub decode_rows : String → Text → ℤ → List LogRow → List StoredLog
decode_rows service week week_start [] = []
decode_rows service week week_start (r ∷ rows) = elim (decode_row service week week_start r) [
  | none ↦ decode_rows service week week_start rows
  | some entry ↦ entry ∷ decode_rows service week week_start rows
]
