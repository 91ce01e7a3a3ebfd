-- ===== src/Logs/Weeks.antt =====
-- src/logs/helpers.rs: the names of the week databases, and the interface by which the log store
-- names weeks. The calendar is that of the `time` crate.
pub mod Names
pub mod Mondays
use vpsiner.Metrics.Bucket.Window.{IsTime}
use vpsiner.Prelude.{
  ℕ, zero, suc, ◌+◌, ◌-◌, ◌*◌, ◌/◌, ◌%◌, ◌^◌, ◌≡◌, Bool, true, false, ◌&&◌, ◌||◌, List, [], ◌∷◌,
  ◌++◌, Option, none, some, ◌>>=◌, ℤ, pos, negsuc, neg, ◌+ℤ◌, ◌-ℤ◌, ◌*ℤ◌, ◌≤ℤ◌, ◌<ℤ◌, div_euclid,
  ltb, leb, ◌==◌, if◌then◌else◌, eq_text, Text, codes, strip_prefix, parse_digits, parse_uint, ◌⊎◌,
  pos_part, neg_part, ◌<◌, arith,
}

-- `WEEK_MS`
abbrev pub week_ms : ℕ
week_ms = 7 * 24 * 60 * 60 * 1000

-- `Date` of the crate: the year, the number of the month, and the ISO week.
pub record Date : Type 0 where
  pub year : ℤ
  pub month : ℕ
  pub iso_week : ℕ

pub record Calendar : Type 0 where
  -- `OffsetDateTime::from_unix_timestamp(seconds)`, and the date of it.
  pub date : ℤ → Option Date
  -- `Date::from_iso_week_date(year, week, Monday)`, and the seconds of its midnight.
  pub monday : ℤ → ℕ → Option ℤ

-- The digits of a number in base 10, in at most `fuel` of them; a number has fewer digits than its
-- successor.
unfoldable pub digits : ℕ → ℕ → Text
digits zero n = []
digits (suc fuel) n =
    let front = digits fuel (n / 10) in
    if ltb n 10 then (n + b'0') ∷ [] else front ++ (n % 10 + b'0') ∷ []

unfoldable pub show_ℕ : ℕ → Text
show_ℕ n = digits (suc n) n

-- `{}` of an `i32`.
unfoldable pub show_ℤ : ℤ → Text
show_ℤ (pos n) = show_ℕ n
show_ℤ (negsuc n) = b'-' ∷ show_ℕ (suc n)

-- `{:02}`
unfoldable pub show_padded : ℕ → Text
show_padded n = if ltb n 10 then b'0' ∷ show_ℕ n else show_ℕ n

-- The year that the ISO week belongs to.
unfoldable pub iso_year : Date → ℤ
iso_year d =
    if d.month == 12 && d.iso_week == 1
    then d.year +ℤ pos 1
    else if d.month == 1 && (d.iso_week == 52 || d.iso_week == 53)
    then d.year -ℤ pos 1
    else d.year

unfoldable pub week_file_name : ℤ → ℕ → Text
week_file_name year week = show_ℤ year ++ (codes "_w" ++ (show_padded week ++ codes ".db"))

-- `parse` into an `i32`.
unfoldable pub parse_i32 : Text → Option ℤ
unfolding parse_digits parse_uint
parse_i32 [] = none
parse_i32 (b ∷ []) = do n ← parse_digits 31 0 (b ∷ []); some (pos n)
parse_i32 (b ∷ c ∷ rest) =
    let negative = (do
      n ← parse_digits 32 0 (c ∷ rest)
      if leb n (2 ^ 31) then some (neg (pos n)) else none) in
    let positive = (do n ← parse_uint 31 (b ∷ c ∷ rest); some (pos n)) in
    if b == b'-' then negative else positive

-- `split_once`: what stands before the first `separator`, and what follows it.
unfoldable pub split_once : Text → Text → Option (Text × Text)
unfolding strip_prefix
split_once separator [] = none
split_once separator (c ∷ s) =
    let later = split_once separator s in
    elim (strip_prefix separator (c ∷ s)) [
      | some rest ↦ some ([], rest)
      | none ↦ do (before, after) ← later; some (c ∷ before, after)
    ]

-- `strip_suffix`
unfoldable pub strip_suffix : Text → Text → Option Text
strip_suffix suffix [] = if eq_text [] suffix then some [] else none
strip_suffix suffix (c ∷ s) =
    let later = strip_suffix suffix s in
    if eq_text (c ∷ s) suffix then some [] else (do front ← later; some (c ∷ front))

-- `path.extension() == Some("db")`
unfoldable pub has_db_extension : Text → Bool
has_db_extension name = elim (strip_suffix (codes ".db") name) [
  | none ↦ false
  | some [] ↦ false
  | some (c ∷ stem) ↦ true
]

unfoldable pub week_database_name : Calendar → ℤ → Option Text
week_database_name calendar ts_ms = do
  d ← calendar.date (div_euclid ts_ms 1000)
  some (week_file_name (iso_year d) d.iso_week)

unfoldable pub database_week_start_ms : Calendar → Text → Option ℤ
database_week_start_ms calendar name = do
  stem ← strip_suffix (codes ".db") name
  (year, week) ← split_once (codes "_w") stem
  year ← parse_i32 year
  week ← parse_uint 8 week
  monday ← calendar.monday year week
  some (monday *ℤ pos 1000)

-- What the store needs: the week database of a timestamp, and the start of the week of a name.
pub record Weeks : Type 0 where
  pub name : ℤ → Option Text
  pub start : Text → Option ℤ

-- The timestamp lies in the week of its database. Two weeks are the same or do not overlap, and one
-- week has one name, which ends in `.db`. A year has four digits, so a week begins near the epoch.
pub record IsWeeks (w : Weeks) : Type 0 where
  pub holds :
      (ts : ℤ) (name : Text)
      → w.name ts ≡ some name
      → (start : ℤ) × (w.start name ≡ some start) × (start ≤ℤ ts) × (ts <ℤ start +ℤ pos week_ms)
  pub close :
      (name : Text) (start : ℤ)
      → w.start name ≡ some start
      → (pos_part start < 2 ^ 60) × (neg_part start < 2 ^ 60)
  pub apart :
      (a b : Text) (start later : ℤ)
      → w.start a ≡ some start
      → w.start b ≡ some later
      → (start ≡ later) ⊎ ((start +ℤ pos week_ms ≤ℤ later) ⊎ (later +ℤ pos week_ms ≤ℤ start))
  pub extension :
      (name : Text) (start : ℤ) → w.start name ≡ some start → has_db_extension name ≡ true
  pub one_name :
      (ts ts' : ℤ) (a b : Text)
      → w.name ts ≡ some a
      → w.name ts' ≡ some b
      → w.start a ≡ w.start b
      → a ≡ b

pub near :
    {w : Weeks} → IsWeeks w → (name : Text) (start : ℤ) → w.start name ≡ some start → IsTime start
near laws name start e =
    let (above, below) = laws.close name start e in
    record { above = omega (arith, above); below = omega (arith, below) }
