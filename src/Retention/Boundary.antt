-- ===== src/Retention/Boundary.antt =====
-- src/retention.rs: the cutoff of the retention divides no week database.
use vpsiner.Prelude.{
  ℕ, arith, ◌≤◌, ◌+◌, ◌*◌, ◌≡◌, ap, ℤ, pos, ◌+ℤ◌, ◌-ℤ◌, ◌*ℤ◌, pos_part, neg_part, int_laws, inl,
  inr, Bool, true, false, some, refl, one_part, [], ◌∷◌, String, List, keep, leb_ℤ, lookup, Text,
  Eq-Text,
}
use vpsiner.Logs.Weeks.{Calendar, week_ms, week_database_name, database_week_start_ms}
use vpsiner.Logs.Weeks.Mondays.{
  IsCalendar, name_parts, calendar-IsWeeks, start_parts, scale_parts, week_gap,
}
use vpsiner.Logs.Store.{Platform, Root, done, or_empty}
use vpsiner.Logs.Store.Deletion.{delete_before}
use vpsiner.Logs.Store.Timeline.{timeline}
use vpsiner.Logs.Store.Append.{IsRoot}
use vpsiner.Logs.Store.Expired.{IsBoundary, delete_before-timeline}
use vpsiner.Retention.{is_date, retention_cutoff_ms}

-- The cutoff as an integer: the Monday of the current week, less the weeks kept.
abbrev cutoff_of : ℤ → ℕ → ℕ → ℤ
cutoff_of today days weeks = (today -ℤ pos days -ℤ pos (7 * weeks)) *ℤ pos (24 * 60 * 60 * 1000)

in_range : (day : ℤ) → neg_part day ≤ 4371587 → pos_part day ≤ 2932896 → is_date day ≡ true
in_range day h k = ground arith

of_date : (day : ℤ) → is_date day ≡ true → (neg_part day ≤ 4371587) × (pos_part day ≤ 2932896)
of_date day h = ground arith

date_between :
    (today : ℤ) (days weeks : ℕ)
    → is_date today ≡ true
    → is_date (today -ℤ pos days -ℤ pos (7 * weeks)) ≡ true
    → is_date (today -ℤ pos days) ≡ true
date_between today days weeks h k =
    let day = today -ℤ pos days in
    let (_, high) = of_date today h in
    let (low, _) = of_date (day -ℤ pos (7 * weeks)) k in
    in_range day
      (omega (int_laws, one_part day, one_part today, low, high, one_part (day -ℤ pos (7 * weeks))))
      (omega (int_laws, one_part day, one_part today, high))

-- The cutoff is defined where both ends of the time that is kept are dates.
retention_cutoff_ms-defined :
    (today : ℤ) (days weeks : ℕ)
    → is_date today ≡ true
    → is_date (today -ℤ pos days -ℤ pos (7 * weeks)) ≡ true
    → retention_cutoff_ms today days weeks ≡ some (cutoff_of today days weeks)
unfolding retention_cutoff_ms
retention_cutoff_ms-defined today days weeks h k =
    let between : is_date (today -ℤ pos days) ≡ true = date_between today days weeks h k in
    rw (between, k) refl

-- The cutoff is a number of weeks from the first Monday of 1970.
cutoff_parts :
    (today j : ℤ) (days weeks : ℕ)
    → today ≡ j *ℤ pos 7 +ℤ pos (4 + days)
    → (let cutoff = cutoff_of today days weeks in
        pos_part cutoff + (neg_part j + weeks) * week_ms
        ≡ pos_part j * week_ms + 4 * 24 * 60 * 60 * 1000 + neg_part cutoff)
cutoff_parts today j days weeks e = omega (
  int_laws,
  scale_parts j 7,
  ap pos_part e,
  ap neg_part e,
  scale_parts (today -ℤ pos days -ℤ pos (7 * weeks)) (24 * 60 * 60 * 1000),
)

cutoff-IsBoundary :
    (calendar : Calendar) (laws : IsCalendar calendar) (today j : ℤ) (days weeks : ℕ)
    → today ≡ j *ℤ pos 7 +ℤ pos (4 + days)
    → IsBoundary
        record { name = week_database_name calendar; start = database_week_start_ms calendar }
        (cutoff_of today days weeks)
cutoff-IsBoundary calendar laws today j days weeks e name start s =
    let n = name_parts calendar name start s in
    let (k, m, _, _) = laws.whole_weeks n.year n.week n.monday n.monday_eq in
    let parts = start_parts start n.monday k n.start_eq m in
    let cutoff = cutoff_parts today j days weeks e in
    elim (week_gap (k +ℤ pos weeks) j) [
      | inl same ↦ inr (omega (int_laws, parts, cutoff, ap pos_part same, ap neg_part same))
      | inr (inl earlier) ↦ inl (omega (int_laws, parts, cutoff, earlier))
      | inr (inr later) ↦ inr (omega (int_laws, parts, cutoff, later))
    ]

-- The platform whose weeks are those of the calendar.
abbrev pub with_calendar : Calendar → Platform → Platform
with_calendar calendar p = record p {
  weeks = record { name = week_database_name calendar; start = database_week_start_ms calendar };
}

-- With the week names of a calendar of ISO 8601 weeks, on a day that is `days_since_monday` days
-- after a Monday, where that day and the first day that is kept are dates from year -9999 to year
-- 9999: the cutoff of the retention is defined, and where no removal is refused, deleting
-- succeeds, leaves in the timeline of every path that is not empty exactly the entries that are
-- not older than the cutoff, and leaves that of the empty path as it was.
pub delete_before-retention :
    (calendar : Calendar) (laws : IsCalendar calendar) (p : Platform) (refused : Text → Bool)
    → ((name : Text) → refused name ≡ false)
    → (root : Root) → IsRoot (with_calendar calendar p) (calendar-IsWeeks calendar laws) root
    → (today j : ℤ) (days_since_monday retention_weeks : ℕ)
    → today ≡ j *ℤ pos 7 +ℤ pos (4 + days_since_monday)
    → is_date today ≡ true
    → is_date (today -ℤ pos days_since_monday -ℤ pos (7 * retention_weeks)) ≡ true
    → (cutoff : ℤ) × (retention_cutoff_ms today days_since_monday retention_weeks ≡ some cutoff)
      × (let (answer, root') = delete_before (with_calendar calendar p) false refused cutoff root in
          (names : List Text) × (answer ≡ done names)
          × ((service : String) (c : ℕ) (name : Text)
              → timeline (with_calendar calendar p) service (or_empty (lookup (c ∷ name) root'))
                ≡ keep
                    (λ e. leb_ℤ cutoff e.ts)
                    (timeline
                      (with_calendar calendar p)
                      service
                      (or_empty (lookup (c ∷ name) root))))
          × ((service : String)
              → timeline (with_calendar calendar p) service (or_empty (lookup [] root'))
                ≡ timeline (with_calendar calendar p) service (or_empty (lookup [] root))))
delete_before-retention calendar laws p refused calm root valid today j days weeks e h k = (
  cutoff_of today days weeks,
  retention_cutoff_ms-defined today days weeks h k,
  delete_before-timeline (with_calendar calendar p) (calendar-IsWeeks calendar laws)
      (cutoff_of today days weeks) refused calm root valid
      (cutoff-IsBoundary calendar laws today j days weeks e),
)
