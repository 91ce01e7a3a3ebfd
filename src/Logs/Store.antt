-- ===== src/Logs/Store.antt =====
-- src/logs/store.rs: paging through the week databases of a service. A root directory holds one
-- directory for each service, and that one table for each file; a service whose path is empty has
-- its files in the root itself. A call is one step: opening and
-- closing connections is not modelled.
pub mod Wanted
pub mod Timeline
pub mod Scan
pub mod Pages
pub mod Order
pub mod Query
pub mod Paging
pub mod Appending
pub mod Append
pub mod Tally
pub mod Appended
pub mod Deletion
pub mod Expired
use vpsiner.Prelude.{
  ℕ, ◌+◌, ◌-◌, Bool, true, false, ◌&&◌, ◌||◌, String, List, [], ◌∷◌, ◌++◌, map, Option, none, some,
  ◌>>=◌, ℤ, pos, ◌+ℤ◌, wrap_i64, ltb_ℤ, leb_ℤ, leb, ltb, if◌then◌else◌, take, keep, length, last?,
  Text, Eq-Text, codes, HashMap, lookup, is_some,
}
use vpsiner.Error.{AppError, storage, bad_request}
use vpsiner.Model.Logs.{LogFilter, LogCursor, LogPage}
use vpsiner.Logs.Helpers.{sanitize_fts_query, safe_service_path}
use vpsiner.Logs.Weeks.{Weeks, week_ms}
use vpsiner.Logs.Rows.{
  LogRow, StoredLog, Direction, backward, forward, push_filters, push_cursor, select_rows,
  decode_rows, in_direction,
}

-- What an operation answers; `panicked` is a panic of the task.
pub data Answer {ℓ} (A : Type ℓ) : Type ℓ where
  done : A → Answer A
  failed : AppError → Answer A
  panicked : Answer A

abbrev pub and_then {ℓ κ} : {A : Type ℓ} {B : Type κ} → Answer A → (A → Answer B) → Answer B
and_then (done a) f = f a
and_then (failed e) f = failed e
and_then panicked f = panicked

-- Third-party code: the calendar behind the week names, the cursors' JSON and base64, `MATCH` of the
-- full-text index, and `char::is_whitespace`.
pub record Platform : Type 0 where
  pub weeks : Weeks
  pub encode_cursor : LogCursor → Option Text
  pub decode_cursor : Text → Option LogCursor
  pub matches : Text → String → Bool
  pub is_whitespace : ℕ → Bool

-- What the file system and SQLite refuse: the directory, opening a file, and writing to it.
pub record Refusals : Type 0 where
  pub directory : Bool
  pub opening : Text → Bool
  pub writing : Text → Bool

abbrev pub ServiceDir : Type 0
ServiceDir = HashMap Text (List LogRow)

abbrev pub Root : Type 0
Root = HashMap Text ServiceDir

abbrev pub or_empty {ℓ} : {A : Type ℓ} → Option (List A) → List A
or_empty none = []
or_empty (some xs) = xs

abbrev pub default_page_limit : ℕ
default_page_limit = 100

-- `filter.limit.unwrap_or(DEFAULT_PAGE_LIMIT).clamp(1, 100)`
abbrev pub page_limit : Option ℕ → ℕ
page_limit none = default_page_limit
page_limit (some limit) = if ltb limit 1 then 1 else if ltb 100 limit then 100 else limit

unfoldable pub empty_page : Option Text → LogPage
empty_page newer_cursor = record {
  items = [];
  older_cursor = none;
  newer_cursor = newer_cursor;
  has_older = false;
  has_newer = false;
}

unfoldable pub cursor_of : StoredLog → LogCursor
cursor_of entry = record { ts = entry.ts; week = entry.week; id = entry.id }

abbrev pub not_after : Option ℤ → ℤ → Bool
not_after none end = false
not_after (some from) end = leb_ℤ end from

abbrev pub not_before : Option ℤ → ℤ → Bool
not_before none start = false
not_before (some to) start = ltb_ℤ to start

-- Whether the week that begins at `start` can hold a row that is asked for.
unfoldable pub week_matches : ℤ → LogFilter → Option LogCursor → Direction → Bool
week_matches start filter cursor direction =
    let end = wrap_i64 (start +ℤ pos week_ms) in
    if not_before filter.to start || not_after filter.from end then false else elim cursor [
      | none ↦ true
      | some c ↦ elim direction [ backward ↦ leb_ℤ start c.ts | forward ↦ ltb_ℤ c.ts end ]
    ]

-- The week of a name with its start, put before the weeks that do not begin earlier.
unfoldable pub insert_week : Text × ℤ → List (Text × ℤ) → List (Text × ℤ)
insert_week w [] = w ∷ []
insert_week w (x ∷ ws) =
    let rest = x ∷ insert_week w ws in if leb_ℤ w.1 x.1 then w ∷ x ∷ ws else rest

-- The weeks that the selected names stand for, in the order in which they are visited.
unfoldable pub ordered_candidates :
    List (Text × ℤ) → LogFilter → Option LogCursor → Direction → List (Text × ℤ)
ordered_candidates weeks filter cursor direction =
    in_direction direction (keep (λ w. week_matches w.1 filter cursor direction) weeks)

module _ (p : Platform) where
  -- The files of a directory that are week databases, by the start of their week.
  unfoldable pub read_week_files : ServiceDir → List (Text × ℤ)
  read_week_files [] = []
  read_week_files ((name, rows) ∷ dir) = elim (p.weeks.start name) [
    | none ↦ read_week_files dir
    | some start ↦ insert_week (name, start) (read_week_files dir)
  ]

  abbrev pub query_holds : Option Text → LogRow → Bool
  query_holds none r = true
  query_holds (some query) r = p.matches query r.line

  -- The `WHERE` of one week; `none` is the panic on a cursor whose week is no week.
  unfoldable pub where_of :
      LogFilter → Option Text → Option LogCursor → Direction → ℤ → Option (LogRow → Bool)
  where_of filter query none direction week_start =
      some (λ r. query_holds query r && push_filters filter week_start r)
  where_of filter query (some cursor) direction week_start = do
    cursor_week_start ← p.weeks.start cursor.week
    some (λ r.
        (query_holds query r && push_filters filter week_start r)
        && push_cursor cursor cursor_week_start week_start direction r)

  module _ (refuses : Refusals) (service : String) (dir : ServiceDir) where
    -- What one week adds to the page.
    unfoldable pub read_week :
        LogFilter → Option Text → Option LogCursor → Direction → ℕ → Text → Answer (List StoredLog)
    read_week filter query cursor direction limit week = elim (p.weeks.start week) [
      | none ↦ panicked
      | some week_start ↦
          if refuses.opening week
          then failed storage
          else elim (where_of filter query cursor direction week_start) [
            | none ↦ panicked
            | some where_holds ↦ done (
                decode_rows service week week_start
                  (select_rows where_holds direction limit (or_empty (lookup week dir))))
          ]
    ]

    -- The loop over the weeks, with the page so far.
    unfoldable pub read_weeks :
        LogFilter
        → Option Text
        → Option LogCursor
        → Direction
        → ℕ
        → List Text
        → List StoredLog
        → Answer (List StoredLog)
    read_weeks filter query cursor direction target [] page = done page
    read_weeks filter query cursor direction target (week ∷ weeks) page =
        let rest =
          and_then (read_week filter query cursor direction (target - length page) week)
            (λ found. read_weeks filter query cursor direction target weeks (page ++ found)) in
        if leb target (length page) then done page else rest

  abbrev pub anchor : Option StoredLog → Option Text
  anchor none = none
  anchor (some entry) = p.encode_cursor (cursor_of entry)

  abbrev pub first? : List StoredLog → Option StoredLog
  first? [] = none
  first? (x ∷ xs) = some x

  -- The page of its entries, oldest first; `has_beyond` says that the scan found a row past them.
  unfoldable pub page_with : LogFilter → Direction → Bool → List StoredLog → LogPage
  unfolding empty_page
  page_with filter direction has_beyond [] = empty_page filter.after
  page_with filter direction has_beyond (first ∷ rest) = record {
    items = map (λ (entry : StoredLog). entry.line) (first ∷ rest);
    older_cursor = anchor (first? (first ∷ rest));
    newer_cursor = anchor (last? (first ∷ rest));
    has_older = elim direction [ backward ↦ has_beyond | forward ↦ is_some filter.after ];
    has_newer = elim direction [ backward ↦ is_some filter.before | forward ↦ has_beyond ];
  }

  -- What the scan found is at most one row more than the page.
  unfoldable pub page_of : LogFilter → Direction → ℕ → List StoredLog → LogPage
  unfolding page_with
  page_of filter direction limit found =
      page_with filter direction (ltb limit (length found))
        (in_direction direction (take limit found))

  -- `transpose`: an absent cursor is fine, an unreadable one is a bad request.
  unfoldable pub read_cursor : Option Text → Answer (Option LogCursor)
  read_cursor none = done none
  read_cursor (some text) = elim (p.decode_cursor text) [
    | none ↦ failed bad_request
    | some cursor ↦ done (some cursor)
  ]

  -- The scan of a directory and the page of it.
  unfoldable pub scan_page :
      Refusals → String → LogFilter → Option LogCursor → Direction → ServiceDir → Answer LogPage
  scan_page refuses service filter cursor direction dir =
      let limit = page_limit filter.limit in
      let query = filter.query >>= sanitize_fts_query p.is_whitespace in
      let candidates = ordered_candidates (read_week_files dir) filter cursor direction in
      and_then
        (read_weeks refuses service dir filter query cursor direction (limit + 1)
          (map (λ w. w.0) candidates) [])
        (λ found. done (page_of filter direction limit found))

  unfoldable pub query : Refusals → String → LogFilter → Root → Answer LogPage
  query refuses service filter root = and_then (read_cursor filter.before) (λ before.
      and_then (read_cursor filter.after) (λ after.
        if refuses.directory
        then failed storage
        else elim (lookup (safe_service_path (codes service)) root) [
          | none ↦ done (empty_page none)
          | some dir ↦ elim after [
            | none ↦ scan_page refuses service filter before backward dir
            | some cursor ↦ scan_page refuses service filter (some cursor) forward dir
          ]
        ]))
