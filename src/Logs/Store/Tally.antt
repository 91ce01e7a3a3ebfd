-- ===== src/Logs/Store/Tally.antt =====
-- src/logs/store.rs: how many entries of a timeline pass a test, as a sum over the rows of its files.
use vpsiner.Prelude.{
  ℕ, ◌+◌, ◌≡◌, ◌≢◌, refl, ap, ◌∙◌, Bool, true, false, String, List, [], ◌∷◌, ◌++◌, map, Option,
  none, some, ℤ, pos, ◌+ℤ◌, All, concat, leb_ℤ, keep, keep-append, length, length-append, HashMap,
  Eq, lookup, insert, Eq-Text, Text, eq_text, eq_text_iff, arith, inl, inr, Bool-cases,
  Option-cases, if◌then◌else◌,
}
use vpsiner.Prelude.Ordered.{All-both}
use vpsiner.Model.Logs.{LogLine}
use vpsiner.Metrics.Bucket.Window.{IsTime}
use vpsiner.Logs.Rows.{
  LogRow, StoredLog, row_before, insert_ordered, order_rows, decode_rows, insert_rows, row_of,
  last_id,
}
use vpsiner.Logs.Rows.Readable.{entry_of, decode_row-entry_of}
use vpsiner.Logs.Rows.Decoded.{decode_rows-append, decode_rows-some}
use vpsiner.Logs.Rows.Inserted.{IsOfWeek, stored_line, row_of-IsRow, row_of-line}
use vpsiner.Logs.Store.{Platform, ServiceDir, or_empty, insert_week, read_week_files}
use vpsiner.Logs.Store.Timeline.{
  OneFileAWeek, entries, timeline, read_week_files-none, read_week_files-some,
}

-- How many elements pass the test.
abbrev pub tally {ℓ} : {A : Type ℓ} → (A → Bool) → List A → ℕ
tally q xs = length (keep q xs)

pub tally-append {ℓ} :
    {A : Type ℓ} (q : A → Bool) (xs ys : List A) → tally q (xs ++ ys) ≡ tally q xs + tally q ys
tally-append q xs ys = ap length (keep-append q xs ys) ∙ length-append (keep q xs) (keep q ys)

pub tally-cons {ℓ} :
    {A : Type ℓ} (q : A → Bool) (x : A) (xs : List A)
    → tally q (x ∷ xs) ≡ tally q (x ∷ []) + tally q xs
tally-cons q x xs = tally-append q (x ∷ []) xs

-- The sum of a measure over the pairs of a map.
module _ {ℓ κ} {K : Type ℓ} {V : Type κ} (f : K → V → ℕ) where
  abbrev pub total : HashMap K V → ℕ
  total [] = 0
  total ((k, v) ∷ m) = f k v + total m

  abbrev pub part : K → Option V → ℕ
  part k none = 0
  part k (some v) = f k v

  module _ ⦃e : Eq K⦄ where
    pub total-insert :
        (k : K) (v : V) (m : HashMap K V)
        → total (insert k v m) + part k (lookup k m) ≡ total m + f k v
    unfolding insert lookup
    total-insert k v [] = omega arith
    total-insert k v ((j, w) ∷ m) = elim (Bool-cases (e.test j k)) [
      | inl same ↦ rw same (omega (arith, ap (λ i. f i w) ((e.test_iff j k).0 same)))
      | inr other ↦ rw other (omega (arith, total-insert k v m))
    ]

found_first :
    (name : Text) (rows : List LogRow) (dir : ServiceDir)
    → or_empty (lookup name ((name, rows) ∷ dir)) ≡ rows
unfolding lookup
found_first name rows dir = rw ((eq_text_iff name name).1 refl) refl

found_later :
    (name other : Text) (rows : List LogRow) (dir : ServiceDir)
    → other ≢ name
    → lookup name ((other, rows) ∷ dir) ≡ lookup name dir
unfolding lookup
found_later name other rows dir ne = elim (Bool-cases (eq_text other name)) [
  | inl same ↦ absurd (ne ((eq_text_iff other name).0 same))
  | inr differs ↦ rw differs refl
]

module _ (q : LogLine → Bool) where
  abbrev pub entry_test : StoredLog → Bool
  entry_test e = q e.line

  same_length {ℓ κ} :
      {A : Type ℓ} {B : Type κ} (b : Bool) (x : A) (y : B)
      → length (if b then x ∷ [] else []) ≡ length (if b then y ∷ [] else [])
  same_length true x y = refl
  same_length false x y = refl

  tally_line :
      (x : StoredLog) (l : LogLine) → x.line ≡ l → tally entry_test (x ∷ []) ≡ tally q (l ∷ [])
  tally_line x l e = ap (λ l'. length (if q l' then x ∷ [] else [])) e ∙ same_length (q l) x l

  module _ (service : String) (week : Text) (start : ℤ) where
    abbrev pub row_tally : List LogRow → ℕ
    row_tally rows = tally entry_test (decode_rows service week start rows)

    row_tally-append : (xs ys : List LogRow) → row_tally (xs ++ ys) ≡ row_tally xs + row_tally ys
    row_tally-append xs ys =
        ap (tally entry_test) (decode_rows-append service week start xs ys)
        ∙ tally-append entry_test (decode_rows service week start xs)
            (decode_rows service week start ys)

    row_tally-insert_ordered :
        (r : LogRow) (rows : List LogRow)
        → row_tally (insert_ordered r rows) ≡ row_tally (r ∷ []) + row_tally rows
    unfolding insert_ordered
    row_tally-insert_ordered r [] = row_tally-append (r ∷ []) []
    row_tally-insert_ordered r (x ∷ rows) = elim (Bool-cases (row_before r x)) [
      | inl e ↦ rw e (row_tally-append (r ∷ []) (x ∷ rows))
      | inr e ↦ rw e (
          omega (
            arith,
            row_tally-append (x ∷ []) (insert_ordered r rows),
            row_tally-append (x ∷ []) rows,
            row_tally-insert_ordered r rows,
          ))
    ]

    row_tally-order_rows : (rows : List LogRow) → row_tally (order_rows rows) ≡ row_tally rows
    unfolding order_rows
    row_tally-order_rows [] = refl
    row_tally-order_rows (r ∷ rows) = omega (
      arith,
      row_tally-insert_ordered r (order_rows rows),
      row_tally-order_rows rows,
      row_tally-append (r ∷ []) rows,
    )

    module _ (is_whitespace : ℕ → Bool) (close : IsTime start) where
      row_tally-row_of :
          (id : ℤ) (l : LogLine)
          → IsOfWeek start l
          → row_tally (row_of is_whitespace start id l ∷ [])
            ≡ tally q (stored_line is_whitespace service l ∷ [])
      row_tally-row_of id l h =
          let r = row_of is_whitespace start id l in
          let is_row = row_of-IsRow is_whitespace start close id l h in
          ap (tally entry_test) (
            decode_rows-some service week start r (entry_of service week start r is_row) []
              (decode_row-entry_of start close r is_row service week))
          ∙ unfold decode_rows in
            tally_line (entry_of service week start r is_row) (stored_line is_whitespace service l)
              (row_of-line is_whitespace start close service week id l h)

      pub row_tally-insert_rows :
          (ls : List LogLine) (rows : List LogRow)
          → All (IsOfWeek start) ls
          → row_tally (insert_rows is_whitespace start ls rows)
            ≡ row_tally rows + tally q (map (stored_line is_whitespace service) ls)
      unfolding insert_rows
      row_tally-insert_rows [] rows h = omega arith
      row_tally-insert_rows (l ∷ ls) rows h =
          let r = row_of is_whitespace start (last_id rows +ℤ pos 1) l in
          omega (
            arith,
            row_tally-insert_rows ls (rows ++ r ∷ []) h.1,
            row_tally-append rows (r ∷ []),
            row_tally-row_of (last_id rows +ℤ pos 1) l h.0,
            tally-cons q (stored_line is_whitespace service l)
                (map (stored_line is_whitespace service) ls),
          )

  module _ (p : Platform) (service : String) where
    -- What a file adds to the timeline.
    abbrev pub file_tally : Text → List LogRow → ℕ
    file_tally name rows = elim (p.weeks.start name) [
      | none ↦ 0
      | some start ↦ row_tally service name start rows
    ]

    file_tally-none :
        (name : Text) (rows : List LogRow) → p.weeks.start name ≡ none → file_tally name rows ≡ 0
    file_tally-none name rows e = ground arith

    pub file_tally-some :
        (name : Text) (rows : List LogRow) (start : ℤ)
        → p.weeks.start name ≡ some start
        → file_tally name rows ≡ row_tally service name start rows
    file_tally-some name rows start e = ground arith

    -- The part of a file that may be missing.
    pub part-found :
        (week : Text) (start : ℤ)
        → p.weeks.start week ≡ some start
        → (dir : ServiceDir)
        → part file_tally week (lookup week dir)
          ≡ row_tally service week start (or_empty (lookup week dir))
    part-found week start s dir = by_cases (lookup week dir)
      where
        by_cases :
            (o : Option (List LogRow))
            → part file_tally week o ≡ row_tally service week start (or_empty o)
        by_cases none = unfold decode_rows in refl
        by_cases (some rows) = file_tally-some week rows start s

    abbrev weeks_tally : ServiceDir → List (Text × ℤ) → ℕ
    weeks_tally dir ws = tally entry_test (concat (map (entries service dir) ws))

    weeks_tally-cons :
        (dir : ServiceDir) (w : Text × ℤ) (ws : List (Text × ℤ))
        → weeks_tally dir (w ∷ ws) ≡ tally entry_test (entries service dir w) + weeks_tally dir ws
    weeks_tally-cons dir w ws =
        tally-append entry_test (entries service dir w) (concat (map (entries service dir) ws))

    weeks_tally-insert_week :
        (dir : ServiceDir) (w : Text × ℤ) (ws : List (Text × ℤ))
        → weeks_tally dir (insert_week w ws)
          ≡ tally entry_test (entries service dir w) + weeks_tally dir ws
    unfolding insert_week
    weeks_tally-insert_week dir w [] = weeks_tally-cons dir w []
    weeks_tally-insert_week dir w (x ∷ ws) = elim (Bool-cases (leb_ℤ w.1 x.1)) [
      | inl e ↦ rw e (weeks_tally-cons dir w (x ∷ ws))
      | inr e ↦ rw e (
          omega (
            arith,
            weeks_tally-cons dir x (insert_week w ws),
            weeks_tally-cons dir x ws,
            weeks_tally-insert_week dir w ws,
          ))
    ]

    -- Over the files of a part of the directory whose tables are found under their names.
    weeks_tally-total :
        (dir files : ServiceDir)
        → All
            (λ (file : Text × List LogRow).
              (start : ℤ)
              → p.weeks.start file.0 ≡ some start
              → or_empty (lookup file.0 dir) ≡ file.1)
            files
        → weeks_tally dir (read_week_files p files) ≡ total file_tally files
    weeks_tally-total dir [] h = unfold read_week_files in refl
    weeks_tally-total dir ((name, rows) ∷ files) h = elim (Option-cases (p.weeks.start name)) [
      | inl e ↦
          ap (weeks_tally dir) (read_week_files-none p name rows files e)
          ∙ omega (arith, weeks_tally-total dir files h.1, file_tally-none name rows e)
      | inr (start, e) ↦
          ap (weeks_tally dir) (read_week_files-some p name rows start files e)
          ∙ omega (
            arith,
            weeks_tally-insert_week dir (name, start) (read_week_files p files),
            weeks_tally-total dir files h.1,
            file_tally-some name rows start e,
            row_tally-order_rows service name start (or_empty (lookup name dir)),
            ap (row_tally service name start) (h.0 start e),
          )
    ]

    -- Where each week has one file, every table is found under its name.
    tables_found :
        (dir : ServiceDir)
        → OneFileAWeek p.weeks dir
        → All
            (λ (file : Text × List LogRow).
              (start : ℤ)
              → p.weeks.start file.0 ≡ some start
              → or_empty (lookup file.0 dir) ≡ file.1)
            dir
    tables_found [] h = tt
    tables_found ((name, rows) ∷ dir) h = (
      λ start e. found_first name rows dir,
      All-both dir
          (λ x apart seen start e.
            ap or_empty
              (found_later x.0 name rows dir (λ same. apart start (ap p.weeks.start same ∙ e) e))
            ∙ seen start e)
          h.0 (tables_found dir h.1),
    )

    pub timeline-total :
        (dir : ServiceDir)
        → OneFileAWeek p.weeks dir
        → tally entry_test (timeline p service dir) ≡ total file_tally dir
    timeline-total dir h = weeks_tally-total dir dir (tables_found dir h)
