-- ===== src/Tests/Store.antt =====
-- src/logs/store.rs and helpers.rs: two lines in two weeks of January 1970, appended, paged, deleted.
use vpsiner.Prelude.{
  ℕ, zero, suc, ◌+◌, ◌-◌, ◌*◌, ◌/◌, ◌^◌, ◌<◌, ◌≡◌, ◌⊎◌, inl, inr, refl, sym, ap, ap₂, ◌∙◌, subst,
  String, Bool, true, false, ◌&&◌, ◌||◌, List, [], ◌∷◌, ◌++◌, Option, some, none, ◌>>=◌, ℤ, pos,
  negsuc, ◌+ℤ◌, ◌-ℤ◌, ◌*ℤ◌, ◌≤ℤ◌, ◌<ℤ◌, pos_part, neg_part, ltb, leb, ltb→lt, leb→le, ◌==◌, ==_iff,
  &&_both, Bool-cases, if◌then◌else◌, arith, int_laws, HashMap, lookup, length, All, Text, Eq-Text,
  codes, keep, eq_text, div_euclid, strip_prefix, parse_digits, parse_uint,
}
use vpsiner.Model.Logs.{LogLine, LogCursor, LogFilter, LogPage, stdout}
use vpsiner.Logs.Weeks.{
  Date, Calendar, iso_year, Weeks, IsWeeks, week_ms, week_database_name, database_week_start_ms,
  week_file_name, digits, show_ℕ, show_ℤ, show_padded, parse_i32, split_once, strip_suffix,
}
use vpsiner.Logs.Weeks.Mondays.{IsCalendar, calendar-IsWeeks, name_parts, scale_parts}
use vpsiner.Logs.Helpers.{safe_service_path, split_path, is_kept_part, join}
use vpsiner.Prelude.{leb_ℤ}
use vpsiner.Logs.Weeks.Names.{database_week_start_ms-week_file_name}
use vpsiner.Logs.Rows.{StoredLog, Direction, backward, in_direction}
use vpsiner.Logs.Store.Wanted.{wanted}
use vpsiner.Logs.Store.Timeline.{IsDir, timeline}
use vpsiner.Logs.Store.Pages.{IsPage}
use vpsiner.Logs.Store.Tally.{tally, entry_test}
use vpsiner.Logs.Store.{Platform, Refusals, ServiceDir, Root, done, or_empty, query}
use vpsiner.Logs.Store.Appending.{append, append_groups, group_by_week, push_line, append_weeks}
use vpsiner.Logs.Store.Deletion.{delete_before}
use vpsiner.Logs.Locks.{Locks, no_locks, request, requested, acquired, Run, here, step}
use vpsiner.Logs.Locks.Exclusion.{IsExclusive, held-IsExclusive, forgotten-shared}
use vpsiner.Retention.{is_date, retention_cutoff_ms}
use vpsiner.Retention.Boundary.{delete_before-retention}
use vpsiner.Logs.Store.Scan.{IsCalm}
use vpsiner.Logs.Store.Append.{HasId, IsRoot, append-IsRoot}
use vpsiner.Logs.Store.Query.{newest, query-IsPage}
use vpsiner.Logs.Store.Paging.{IsCodec, read_back, read_back-wanted, lines, left}
use vpsiner.Logs.Store.Appended.{append-tally, stored, has_week}
use vpsiner.Logs.Store.Expired.{IsBoundary, delete_before-timeline}

-- The two weeks that begin on the 5th of January 1970.
abbrev january : Calendar
january = record {
  date = λ seconds. elim seconds [
    | pos n ↦
        if leb 345600 n && ltb n (345600 + 2 * 604800)
        then some (record { year = pos 1970; month = 1; iso_week = 2 + (n - 345600) / 604800 })
        else none
    | negsuc n ↦ none
  ];
  monday = λ year week. elim year [
    | pos y ↦
        if y == 1970 && (week == 2 || week == 3)
        then some (pos (345600 + (week - 2) * 604800))
        else none
    | negsuc y ↦ none
  ];
}

some_eq {ℓ} : {A : Type ℓ} (a b : A) → some a ≡ some b → a ≡ b
some_eq a b e = cc e

abbrev january_day : ℕ → Date
january_day k = record { year = pos 1970; month = 1; iso_week = 2 + k }

abbrev january_monday : ℕ → ℤ
january_monday k = pos (345600 + k * 604800)

january_dated :
    (seconds : ℤ) (d : Date)
    → january.date seconds ≡ some d
    → (k : ℕ) × (k < 2)
      × (d ≡ january_day k)
      × (january_monday k ≤ℤ seconds)
      × (seconds <ℤ january_monday (suc k))
january_dated (negsuc n) d e = absurd (cc e)
january_dated (pos n) d e = elim (Bool-cases (leb 345600 n && ltb n (345600 + 2 * 604800))) [
  | inl inside ↦
      let (lo, hi) = &&_both (leb 345600 n) (ltb n (345600 + 2 * 604800)) inside in
      let low = leb→le 345600 n lo in
      let high = ltb→lt n (345600 + 2 * 604800) hi in
      (
        (n - 345600) / 604800,
        omega (arith, low, high),
        sym (some_eq _ _ (sym (rw inside refl) ∙ e)),
        omega (arith, low, high),
        omega (arith, low, high),
      )
  | inr outside ↦ absurd (ground arith)
]

january_mondays :
    (year : ℤ) (week : ℕ) (monday : ℤ)
    → january.monday year week ≡ some monday
    → (k : ℕ) × (k < 2) × (year ≡ pos 1970) × (week ≡ 2 + k) × (monday ≡ january_monday k)
january_mondays (negsuc y) week monday e = absurd (cc e)
january_mondays (pos y) week monday e = elim (Bool-cases (y == 1970 && (week == 2 || week == 3))) [
  | inl inside ↦
      let (year, weeks) = &&_both (y == 1970) (week == 2 || week == 3) inside in
      let value : some (january_monday (week - 2)) ≡ some monday = sym (rw inside refl) ∙ e in
      (
        week - 2,
        ground arith,
        ap pos ((==_iff y 1970).0 year),
        ground arith,
        sym (some_eq _ _ value),
      )
  | inr outside ↦ absurd (ground arith)
]

january_year : (k : ℕ) → k < 2 → iso_year (january_day k) ≡ pos 1970
unfolding iso_year
january_year k h = ground arith

monday_of_day : (k : ℕ) → k < 2 → january.monday (pos 1970) (2 + k) ≡ some (january_monday k)
monday_of_day zero h = refl
monday_of_day (suc zero) h = refl
monday_of_day (suc (suc k)) h = absurd (omega (arith, h))

weeks_after : (k : ℕ) → january_monday k ≡ pos k *ℤ pos (7 * 24 * 60 * 60) +ℤ pos (4 * 24 * 60 * 60)
unfolding ◌*ℤ◌ ◌+ℤ◌
weeks_after k = ground arith

january_laws : IsCalendar january
january_laws = record {
  year_of = iso_year;
  december = λ d m w. unfold iso_year in ground arith;
  january = λ d m w. unfold iso_year in ground arith;
  inside = λ d m w. unfold iso_year in ground arith;
  week_of = λ seconds d e.
      let (k, h, f, lo, hi) = january_dated seconds d e in
      let year : iso_year d ≡ pos 1970 = ap iso_year f ∙ january_year k h in
      (
        january_monday k,
        ap₂ january.monday year (ap (λ (d : Date). d.iso_week) f) ∙ monday_of_day k h,
        lo,
        omega (int_laws, hi),
      );
  range = λ seconds d e.
      let (k, h, f, lo, hi) = january_dated seconds d e in
      let year : iso_year d ≡ pos 1970 = ap iso_year f ∙ january_year k h in
      (rw year (omega arith), rw year (omega arith), rw f (omega (arith, h)));
  whole_weeks = λ year week monday e.
      let (k, h, y, w, m) = january_mondays year week monday e in
      (pos k, m ∙ weeks_after k, omega (arith, h), omega (arith, h));
  one_week = λ year year' week week' monday e e'.
      let (k, h, y, w, m) = january_mondays year week monday e in
      let (k', h', y', w', m') = january_mondays year' week' monday e' in
      (y ∙ sym y', omega (arith, w, w', ap pos_part (sym m ∙ m')));
}

abbrev weeks : Weeks
weeks = record { name = week_database_name january; start = database_week_start_ms january }

weeks_laws : IsWeeks weeks
weeks_laws = calendar-IsWeeks january january_laws

-- A cursor is printed as the signs and the sizes of its numbers, and the name of its week.
abbrev put : ℤ → Text → Text
put (pos n) rest = 0 ∷ n ∷ rest
put (negsuc n) rest = 1 ∷ n ∷ rest

abbrev get : ℕ → ℕ → ℤ
get zero n = pos n
get (suc sign) n = negsuc n

abbrev read_cursor_text : Text → Option LogCursor
read_cursor_text (a ∷ b ∷ c ∷ d ∷ week) = some (record { ts = get a b; week = week; id = get c d })
read_cursor_text _ = none

abbrev platform : Platform
platform = record {
  weeks = weeks;
  encode_cursor = λ c. some (put c.ts (put c.id c.week));
  decode_cursor = read_cursor_text;
  matches = λ query line. true;
  is_whitespace = λ c. c == b' ';
}

codec : IsCodec platform
codec c = (put c.ts (put c.id c.week), refl, reads_back c.ts c.id c.week)
  where
    reads_back :
        (ts id : ℤ) (week : Text)
        → read_cursor_text (put ts (put id week)) ≡ some (record { ts = ts; week = week; id = id })
    reads_back (pos m) (pos n) week = refl
    reads_back (pos m) (negsuc n) week = refl
    reads_back (negsuc m) (pos n) week = refl
    reads_back (negsuc m) (negsuc n) week = refl

abbrev calm : Refusals
calm = record { directory = false; opening = λ name. false; writing = λ name. false }

calm_laws : IsCalm calm
calm_laws = record { directory = refl; opening = λ name. refl; writing = λ name. refl }

abbrev line : ℕ → LogLine
line ts = record {
  ts = pos ts;
  service = "web";
  cid = record { bytes = 1 ∷ 2 ∷ 3 ∷ 4 ∷ 5 ∷ 6 ∷ [] };
  stream = stdout;
  level = none;
  line = "ready";
}

-- One line in each of the two weeks, and the root that holds them.
abbrev two_lines : List LogLine
two_lines = line 345601000 ∷ line 950400500 ∷ []

abbrev root : Root
root = (append platform calm "web" two_lines []).1

abbrev dir : ServiceDir
dir = or_empty (lookup (safe_service_path (codes "web")) root)

empty-IsRoot : IsRoot platform weeks_laws []
unfolding lookup
empty-IsRoot name = record { rows = λ name'. tt; keyed = λ name'. tt; one_file = tt; named = tt }

two_lines-HasId : All HasId two_lines
two_lines-HasId = (refl, (refl, tt))

root-IsRoot : IsRoot platform weeks_laws root
root-IsRoot = append-IsRoot platform weeks_laws calm "web" two_lines [] two_lines-HasId empty-IsRoot

dir_found : lookup (safe_service_path (codes "web")) root ≡ some dir
unfolding append append_groups group_by_week push_line append_weeks safe_service_path split_path
    is_kept_part join lookup vpsiner.Prelude.insert week_database_name database_week_start_ms
    week_file_name iso_year div_euclid digits show_ℕ show_ℤ show_padded parse_i32 split_once
    strip_suffix strip_prefix parse_digits parse_uint
dir_found = refl

abbrev all_lines : LogFilter
all_lines = record {
  from = none;
  to = none;
  query = none;
  levels = [];
  streams = [];
  limit = some 1;
  before = none;
  after = none;
}

dir_valid : IsDir weeks dir
dir_valid = root-IsRoot (safe_service_path (codes "web"))

abbrev remaining : List StoredLog
remaining =
    left platform weeks_laws codec calm calm_laws "web" root dir dir_found dir_valid all_lines none

two_remain : length remaining ≡ 2
unfolding append append_groups group_by_week push_line append_weeks safe_service_path split_path
    is_kept_part join lookup vpsiner.Prelude.insert week_database_name database_week_start_ms
    week_file_name iso_year div_euclid digits show_ℕ show_ℤ show_padded parse_i32 split_once
    strip_suffix strip_prefix parse_digits parse_uint vpsiner.Logs.Store.read_week_files
    vpsiner.Logs.Store.insert_week ◌*ℤ◌ vpsiner.Logs.Rows.decode_rows vpsiner.Logs.Rows.order_rows
    vpsiner.Logs.Rows.insert_rows vpsiner.Logs.Rows.decode_row
two_remain = refl

read_back-wanted_example : read_back platform calm "web" root 3 all_lines ≡ some (lines remaining)
read_back-wanted_example =
    read_back-wanted platform weeks_laws codec calm calm_laws "web" root dir dir_found dir_valid 3
      all_lines none tt tt (newest refl refl) tt (omega (arith, two_remain))

query-IsPage_example :
    (page : LogPage) × (query platform calm "web" all_lines root ≡ done page)
    × IsPage platform all_lines backward
        (keep
          (wanted platform all_lines none backward)
          (in_direction backward (timeline platform "web" dir)))
        page
query-IsPage_example =
    query-IsPage platform calm calm_laws "web" root dir dir_found weeks_laws dir_valid all_lines
      none backward tt tt (newest refl refl) tt

append-IsRoot_example : IsDir weeks (
    or_empty (
      lookup
        (safe_service_path (codes "web"))
        (append platform (record calm { writing = λ name. true }) "web" two_lines []).1))
append-IsRoot_example =
    append-IsRoot platform weeks_laws (record calm { writing = λ name. true }) "web" two_lines []
      two_lines-HasId empty-IsRoot (safe_service_path (codes "web"))

append-tally_example :
    ((append platform calm "web" two_lines []).0 ≡ done tt)
    × (tally (entry_test (λ l. true)) (timeline platform "web" dir)
        ≡ tally
            (entry_test (λ l. true))
            (timeline platform "web" (or_empty (lookup (safe_service_path (codes "web")) [])))
          + tally
              (λ l. true)
              (stored
                (λ l. true)
                platform
                "web"
                (keep (has_week (λ l. true) platform "web" weeks_laws) two_lines)))
append-tally_example =
    append-tally (λ l. true) platform "web" weeks_laws calm two_lines [] calm_laws two_lines-HasId
      empty-IsRoot

-- The two weeks lie on either side of the second Monday.
boundary : IsBoundary weeks (pos 950400000)
boundary name start e =
    let n = name_parts january name start e in
    let (k, h, y, w, m) = january_mondays n.year n.week n.monday n.monday_eq in
    by_week k h start (n.start_eq ∙ ap (λ m. m *ℤ pos 1000) m)
  where
    by_week :
        (k : ℕ)
        → k < 2
        → (start : ℤ) → start ≡ january_monday k *ℤ pos 1000
        → (start +ℤ pos week_ms ≤ℤ pos 950400000) ⊎ (pos 950400000 ≤ℤ start)
    by_week zero h start e = inl (rw e (omega (int_laws, scale_parts (january_monday 0) 1000)))
    by_week (suc zero) h start e =
        inr (rw e (omega (int_laws, scale_parts (january_monday 1) 1000)))
    by_week (suc (suc k)) h start e = absurd (omega (arith, h))

delete_before-timeline_example :
    (names : List Text) × ((delete_before platform false (λ name. false) (pos 950400000) root).0
      ≡ done names)
    × ((service : String) (c : ℕ) (name : Text)
        → timeline platform service (
            or_empty (
              lookup
                (c ∷ name)
                (delete_before platform false (λ name. false) (pos 950400000) root).1))
          ≡ keep
              (λ e. leb_ℤ (pos 950400000) e.ts)
              (timeline platform service (or_empty (lookup (c ∷ name) root))))
    × ((service : String)
        → timeline platform service (
            or_empty
              (lookup [] (delete_before platform false (λ name. false) (pos 950400000) root).1))
          ≡ timeline platform service (or_empty (lookup [] root)))
delete_before-timeline_example =
    delete_before-timeline platform weeks_laws (pos 950400000) (λ name. false) (λ name. refl) root
      root-IsRoot boundary

friday : pos 15 ≡ pos 1 *ℤ pos 7 +ℤ pos (4 + 4)
unfolding ◌*ℤ◌ ◌+ℤ◌
friday = refl

first_monday : is_date (pos 15 -ℤ pos 4 -ℤ pos (7 * 0)) ≡ true
unfolding ◌-ℤ◌
first_monday = refl

-- Friday, the 16th of January 1970, with no week kept but the current one.
delete_before-retention_example :
    (cutoff : ℤ) × (retention_cutoff_ms (pos 15) 4 0 ≡ some cutoff)
    × (let (answer, root') = delete_before platform false (λ name. false) cutoff root in
        (names : List Text) × (answer ≡ done names)
        × ((service : String) (c : ℕ) (name : Text)
            → timeline platform service (or_empty (lookup (c ∷ name) root'))
              ≡ keep
                  (λ e. leb_ℤ cutoff e.ts)
                  (timeline platform service (or_empty (lookup (c ∷ name) root))))
        × ((service : String)
            → timeline platform service (or_empty (lookup [] root'))
              ≡ timeline platform service (or_empty (lookup [] root))))
delete_before-retention_example =
    delete_before-retention january january_laws platform (λ name. false) (λ name. refl) root
      root-IsRoot (pos 15) (pos 1) 4 0 friday refl first_monday

database_week_start_ms-week_file_name_example :
    database_week_start_ms january (week_file_name (pos 1970) 3)
    ≡ (january.monday (pos 1970) 3 >>= (λ monday. some (monday *ℤ pos 1000)))
database_week_start_ms-week_file_name_example =
    database_week_start_ms-week_file_name january (pos 1970) 3 (omega arith) (omega arith)
      (omega arith)

calendar-IsWeeks_example :
    IsWeeks record { name = week_database_name january; start = database_week_start_ms january }
calendar-IsWeeks_example = calendar-IsWeeks january january_laws

abbrev first_path : Text
first_path = codes "web/1970_w02.db"

abbrev second_path : Text
second_path = codes "web/1970_w03.db"

-- Two tasks that hold the locks of two files.
abbrev both_held : Locks
both_held = record {
  operation_locks = (first_path, 0) ∷ (second_path, 1) ∷ [];
  fresh = 2;
  waiting = [];
  held = (second_path, 1) ∷ (first_path, 0) ∷ [];
}

both_run : Run false no_locks both_held
unfolding request lookup vpsiner.Prelude.insert
both_run =
    step
      (step (step (step here (requested first_path)) (acquired [] [] (first_path, 0) refl tt))
        (requested second_path))
      (acquired [] [] (second_path, 1) refl ((λ e. omega (arith, e)), tt))

held-IsExclusive_example : IsExclusive ((second_path, 1) ∷ (first_path, 0) ∷ [])
held-IsExclusive_example = held-IsExclusive both_held both_run

forgotten-shared_example :
    (s : Locks) × Run true no_locks s × (s.held ≡ (first_path, 1) ∷ (first_path, 0) ∷ [])
forgotten-shared_example = forgotten-shared first_path
