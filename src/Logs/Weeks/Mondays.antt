-- ===== src/Logs/Weeks/Mondays.antt =====
-- src/logs/helpers.rs: the week databases of a calendar hold the timestamps that are named by them.
use vpsiner.Prelude.{
  ℕ, ◌+◌, ◌*◌, ◌/◌, ◌^◌, ◌<◌, ◌≡◌, ◌≢◌, refl, sym, ap, ◌∙◌, Bool, true, false, ◌&&◌, ◌||◌, [], ◌∷◌,
  Option, none, some, ◌>>=◌, ℤ, pos, negsuc, ◌+ℤ◌, ◌-ℤ◌, ◌*ℤ◌, ◌≤ℤ◌, ◌<ℤ◌, div_euclid, pos_part,
  neg_part, ◌==◌, Text, codes, arith, int_laws, one_part, ◌⊎◌, inl, inr, Bool-cases, &&_both,
  ==_iff, eq_of_parts, eq_ℤ, eq_ℤ_iff, leb_ℤ, leb_ℤ_iff, ap₂, +ℤ_parts,
}
use vpsiner.Logs.Weeks.{
  Date, Calendar, iso_year, week_file_name, split_once, strip_suffix, week_database_name,
  database_week_start_ms, has_db_extension, parse_i32, week_ms, IsWeeks,
}
use vpsiner.Logs.Weeks.Names.{database_week_start_ms-week_file_name}
use vpsiner.Prelude.{parse_uint}

-- What the `time` crate documents of its calendar: ISO 8601 weeks, and years of four digits.
pub record IsCalendar (calendar : Calendar) : Type 0 where
  -- The year that the ISO week of a date belongs to, `to_iso_week_date`.
  pub year_of : Date → ℤ
  pub december : (d : Date) → d.month ≡ 12 → d.iso_week ≡ 1 → year_of d ≡ d.year +ℤ pos 1
  pub january :
      (d : Date) → d.month ≡ 1 → (d.iso_week ≡ 52) ⊎ (d.iso_week ≡ 53) → year_of d ≡ d.year -ℤ pos 1
  pub inside :
      (d : Date)
      → (d.month ≡ 12 → d.iso_week ≢ 1)
      → (d.month ≡ 1 → (d.iso_week ≢ 52) × (d.iso_week ≢ 53))
      → year_of d ≡ d.year
  -- The Monday of the week of a date is at most six days before it.
  pub week_of :
      (seconds : ℤ) (d : Date)
      → calendar.date seconds ≡ some d
      → (monday : ℤ) × (calendar.monday (year_of d) d.iso_week ≡ some monday)
        × (monday ≤ℤ seconds)
        × (seconds <ℤ monday +ℤ pos (7 * 24 * 60 * 60))
  pub range :
      (seconds : ℤ) (d : Date)
      → calendar.date seconds ≡ some d
      → (pos_part (year_of d) < 10001) × (neg_part (year_of d) < 10001) × (d.iso_week < 54)
  -- Mondays are a number of weeks from the first Monday of 1970.
  pub whole_weeks :
      (year : ℤ) (week : ℕ) (monday : ℤ)
      → calendar.monday year week ≡ some monday
      → (k : ℤ) × (monday ≡ k *ℤ pos (7 * 24 * 60 * 60) +ℤ pos (4 * 24 * 60 * 60))
        × (pos_part k < 2 ^ 20)
        × (neg_part k < 2 ^ 20)
  pub one_week :
      (year year' : ℤ) (week week' : ℕ) (monday : ℤ)
      → calendar.monday year week ≡ some monday
      → calendar.monday year' week' ≡ some monday
      → (year ≡ year') × (week ≡ week')

-- The year in the name of a week is the year of the ISO week.
iso_year-year_of :
    (calendar : Calendar) (laws : IsCalendar calendar) (d : Date) → iso_year d ≡ laws.year_of d
unfolding iso_year
iso_year-year_of calendar laws d = elim (Bool-cases (d.month == 12 && d.iso_week == 1)) [
  | inl last ↦
      let (m, w) = &&_both (d.month == 12) (d.iso_week == 1) last in
      rw last (sym (laws.december d ((==_iff d.month 12).0 m) ((==_iff d.iso_week 1).0 w)))
  | inr other ↦ elim (Bool-cases (d.month == 1 && (d.iso_week == 52 || d.iso_week == 53))) [
    | inl first ↦
        let (m, w) = &&_both (d.month == 1) (d.iso_week == 52 || d.iso_week == 53) first in
        rw (other, first) (sym (laws.january d ((==_iff d.month 1).0 m) (ground arith)))
    | inr ordinary ↦
        rw (other, ordinary)
          (sym
            (laws.inside d (λ m w. ground arith) (λ m. ((λ w. ground arith), (λ w. ground arith)))))
  ]
]

pub scale_parts :
    (a : ℤ) (n : ℕ)
    → (pos_part (a *ℤ pos n) ≡ pos_part a * n) × (neg_part (a *ℤ pos n) ≡ neg_part a * n)
unfolding ◌*ℤ◌
scale_parts (pos a) n = ground arith
scale_parts (negsuc a) n = ground arith

unscaled : (a b : ℤ) → a *ℤ pos 1000 ≡ b *ℤ pos 1000 → a ≡ b
unscaled a b e =
    eq_of_parts a b
      (omega (arith, scale_parts a 1000, scale_parts b 1000, ap pos_part e, ap neg_part e))

seconds_bounds :
    (ts : ℤ)
    → (div_euclid ts 1000 *ℤ pos 1000 ≤ℤ ts) × (ts <ℤ div_euclid ts 1000 *ℤ pos 1000 +ℤ pos 1000)
unfolding div_euclid
seconds_bounds (pos n) = (
  omega (int_laws, scale_parts (pos (n / 1000)) 1000),
  omega (int_laws, scale_parts (pos (n / 1000)) 1000),
)
seconds_bounds (negsuc n) = (
  omega (int_laws, scale_parts (negsuc (n / 1000)) 1000),
  omega (int_laws, scale_parts (negsuc (n / 1000)) 1000),
)

-- A chain that has a result has one at its first step.
first_step {ℓ κ} :
    {A : Type ℓ} {B : Type κ} (o : Option A) (f : A → Option B) (b : B)
    → (o >>= f) ≡ some b
    → (a : A) × (o ≡ some a) × (f a ≡ some b)
first_step none f b h = absurd (cc h)
first_step (some a) f b h = (a, refl, h)

abbrev has_stem : Option Text → Bool
has_stem none = false
has_stem (some []) = false
has_stem (some (c ∷ stem)) = true

-- The Monday that a name stands for.
pub record IsNameOf (calendar : Calendar) (name : Text) (start : ℤ) : Type 0 where
  pub year : ℤ
  pub week : ℕ
  pub monday : ℤ
  pub monday_eq : calendar.monday year week ≡ some monday
  pub start_eq : start ≡ monday *ℤ pos 1000
  pub extension : has_db_extension name ≡ true

some_stem :
    (stem year week : Text)
    → split_once (codes "_w") stem ≡ some (year, week)
    → (c : ℕ) × (rest : Text) × (stem ≡ c ∷ rest)
unfolding split_once
some_stem [] year week h = absurd (cc h)
some_stem (c ∷ rest) year week h = (c, rest, refl)

pub name_parts :
    (calendar : Calendar) (name : Text) (start : ℤ)
    → database_week_start_ms calendar name ≡ some start
    → IsNameOf calendar name start
unfolding database_week_start_ms has_db_extension
name_parts calendar name start h =
    let (stem, e, h1) = first_step (strip_suffix (codes ".db") name) _ start h in
    let (parts, split, h2) = first_step (split_once (codes "_w") stem) _ start h1 in
    let (year, e2, h3) = first_step (parse_i32 parts.0) _ start h2 in
    let (week, e3, h4) = first_step (parse_uint 8 parts.1) _ start h3 in
    let (monday, e4, h5) = first_step (calendar.monday year week) _ start h4 in
    let (c, rest, e5) = some_stem stem parts.0 parts.1 split in
    record {
      year = year;
      week = week;
      monday = monday;
      monday_eq = e4;
      start_eq = cc h5;
      extension = ap has_stem (e ∙ ap some e5);
    }

apart : (k l : ℤ) → eq_ℤ k l ≡ false → pos_part k + neg_part l ≢ pos_part l + neg_part k
apart k l h = ground arith

before : (k l : ℤ) → leb_ℤ k l ≡ false → pos_part l + neg_part k < pos_part k + neg_part l
before k l h = ground arith

-- A week starts a number of weeks after the first Monday of 1970, in milliseconds.
pub start_parts :
    (start monday k : ℤ)
    → start ≡ monday *ℤ pos 1000
    → monday ≡ k *ℤ pos (7 * 24 * 60 * 60) +ℤ pos (4 * 24 * 60 * 60)
    → pos_part start + neg_part k * week_ms
      ≡ pos_part k * week_ms + 4 * 24 * 60 * 60 * 1000 + neg_part start
start_parts start monday k e f = rw e (
    omega (
      int_laws,
      scale_parts monday 1000,
      scale_parts k (7 * 24 * 60 * 60),
      ap pos_part f,
      ap neg_part f,
      +ℤ_parts (k *ℤ pos (7 * 24 * 60 * 60)) (pos (4 * 24 * 60 * 60)),
    ))

pub week_gap : (k l : ℤ) → (k ≡ l) ⊎ ((k +ℤ pos 1 ≤ℤ l) ⊎ (l +ℤ pos 1 ≤ℤ k))
week_gap k l = elim (Bool-cases (eq_ℤ k l)) [
  | inl e ↦ inl ((eq_ℤ_iff k l).0 e)
  | inr e ↦ elim (Bool-cases (leb_ℤ k l)) [
    | inl b ↦ inr (inl (omega (int_laws, one_part k, one_part l, (leb_ℤ_iff k l).0 b, apart k l e)))
    | inr b ↦ inr (inr (omega (int_laws, one_part k, one_part l, before k l b)))
  ]
]

module _ (calendar : Calendar) (laws : IsCalendar calendar) where
  -- The week of a timestamp that has a name.
  named :
      (ts : ℤ) (name : Text)
      → week_database_name calendar ts ≡ some name
      → (d : Date) × (calendar.date (div_euclid ts 1000) ≡ some d)
        × (name ≡ week_file_name (laws.year_of d) d.iso_week)
        × (database_week_start_ms calendar name
            ≡ (calendar.monday (laws.year_of d) d.iso_week >>= (λ m. some (m *ℤ pos 1000))))
  unfolding week_database_name
  named ts name h =
      let (d, e, h1) = first_step (calendar.date (div_euclid ts 1000)) _ name h in
      let (year_high, year_low, week) = laws.range (div_euclid ts 1000) d e in
      let f : name ≡ week_file_name (laws.year_of d) d.iso_week =
        rw (← iso_year-year_of calendar laws d) (cc h1) in
      (
        d,
        e,
        f,
        ap (database_week_start_ms calendar) f
            ∙ database_week_start_ms-week_file_name calendar (laws.year_of d) d.iso_week
                (omega (arith, year_high)) (omega (arith, year_low)) (omega (arith, week)),
      )

  -- For a calendar of ISO 8601 weeks and years of four digits, the names of the week databases are
  -- as the store needs them: the timestamp lies in the week that the name of its database stands
  -- for, weeks do not overlap, a week has one name, and names that stand for a week end in `.db`.
  pub calendar-IsWeeks :
      IsWeeks record { name = week_database_name calendar; start = database_week_start_ms calendar }
  calendar-IsWeeks = record {
    holds = λ ts name h.
        let (d, e, f, s) = named ts name h in
        let (monday, m, lo, hi) = laws.week_of (div_euclid ts 1000) d e in
        let (below, above) = seconds_bounds ts in
        (
          monday *ℤ pos 1000,
          s ∙ ap (λ o. o >>= (λ m. some (m *ℤ pos 1000))) m,
          omega (int_laws, scale_parts monday 1000, scale_parts (div_euclid ts 1000) 1000),
          omega (int_laws, scale_parts monday 1000, scale_parts (div_euclid ts 1000) 1000),
        );
    close = λ name start h.
        let n = name_parts calendar name start h in
        let (k, e, high, low) = laws.whole_weeks n.year n.week n.monday n.monday_eq in
        let parts = start_parts start n.monday k n.start_eq e in
        (
          omega (int_laws, parts, high, low, one_part start),
          omega (int_laws, parts, high, low, one_part start),
        );
    apart = λ a b start later h h'.
        let n = name_parts calendar a start h in
        let n' = name_parts calendar b later h' in
        let (k, e, _, _) = laws.whole_weeks n.year n.week n.monday n.monday_eq in
        let (l, e', _, _) = laws.whole_weeks n'.year n'.week n'.monday n'.monday_eq in
        let parts = start_parts start n.monday k n.start_eq e in
        let parts' = start_parts later n'.monday l n'.start_eq e' in
        elim (week_gap k l) [
          | inl same ↦ inl (
              eq_of_parts start later
                (omega (arith, parts, parts', ap pos_part same, ap neg_part same)))
          | inr (inl earlier) ↦ inr (inl (omega (int_laws, parts, parts', earlier)))
          | inr (inr after) ↦ inr (inr (omega (int_laws, parts, parts', after)))
        ];
    extension = λ name start h. IsNameOf.extension (name_parts calendar name start h);
    one_name = λ ts ts' a b h h' e.
        let (d, x, f, s) = named ts a h in
        let (d', x', f', s') = named ts' b h' in
        let (monday, m, _, _) = laws.week_of (div_euclid ts 1000) d x in
        let (monday', m', _, _) = laws.week_of (div_euclid ts' 1000) d' x' in
        let g : some (monday *ℤ pos 1000) ≡ some (monday' *ℤ pos 1000) =
          ap (λ o. o >>= (λ m. some (m *ℤ pos 1000))) (sym m)
          ∙ sym s
          ∙ e
          ∙ s'
          ∙ ap (λ o. o >>= (λ m. some (m *ℤ pos 1000))) m' in
        let same : monday ≡ monday' = unscaled monday monday' (cc g) in
        let (y, w) =
          laws.one_week (laws.year_of d) (laws.year_of d') d.iso_week d'.iso_week monday m
            (m' ∙ ap some (sym same)) in
        f ∙ ap₂ week_file_name y w ∙ sym f';
  }
