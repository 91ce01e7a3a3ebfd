-- ===== src/Logs/Rows/Inserted.antt =====
-- src/logs/store.rs: the rows that a transaction inserts.
use vpsiner.Prelude.{
  ℕ, ◌≡◌, refl, ap, Bool, String, List, [], ◌∷◌, ◌++◌, ℤ, pos, ◌+ℤ◌, ◌-ℤ◌, ◌≤ℤ◌, ◌<ℤ◌, wrap_i64,
  wrap_i64-id, one_part, eq_of_parts, All, All-append, length, Text, codes, arith, int_laws,
}
use vpsiner.Prelude.Ordered.{All-map}
use vpsiner.Model.Logs.{LogLine}
use vpsiner.Metrics.Bucket.Window.{IsTime}
use vpsiner.Logs.Weeks.{week_ms}
use vpsiner.Logs.Levels.{detect_level}
use vpsiner.Logs.Rows.{LogRow, row_of, insert_rows, last_id}
use vpsiner.Logs.Rows.Readable.{IsRow, entry_of}

-- Ids ascend from row to row.
abbrev pub IsKeyed : List LogRow → Type 0
IsKeyed [] = Unit
IsKeyed (r ∷ rows) = All (λ x. r.id <ℤ x.id) rows × IsKeyed rows

-- A line of the week, from a container whose id has six bytes.
pub record IsOfWeek (week_start : ℤ) (l : LogLine) : Type 0 where
  pub within : (week_start ≤ℤ l.ts) × (l.ts <ℤ week_start +ℤ pos week_ms)
  pub six : length l.cid.bytes ≡ 6

last_id-max : (rows : List LogRow) → All (λ (r : LogRow). r.id ≤ℤ last_id rows) rows
unfolding last_id
last_id-max [] = tt
last_id-max (r ∷ rows) = (ground arith, All-map rows (λ x h. ground arith) (last_id-max rows))

IsKeyed-append :
    (rows : List LogRow) (r : LogRow)
    → IsKeyed rows
    → All (λ (x : LogRow). x.id <ℤ r.id) rows
    → IsKeyed (rows ++ r ∷ [])
IsKeyed-append [] r h k = (tt, tt)
IsKeyed-append (x ∷ rows) r h k = (
  All-append (λ (y : LogRow). x.id <ℤ y.id) rows (r ∷ []) h.0 (k.0, tt),
  IsKeyed-append rows r h.1 k.1,
)

-- The line as it is read back: with the service that is asked for, and the level of its text.
abbrev pub stored_line : (ℕ → Bool) → String → LogLine → LogLine
stored_line is_whitespace service l = record l {
  service = service;
  level = detect_level is_whitespace (codes l.line);
}

module _ (is_whitespace : ℕ → Bool) (week_start : ℤ) (near : IsTime week_start) where
  rel_of :
      (l : LogLine) → IsOfWeek week_start l → wrap_i64 (l.ts -ℤ week_start) ≡ l.ts -ℤ week_start
  rel_of l h =
      wrap_i64-id (l.ts -ℤ week_start)
        (omega (int_laws, one_part (l.ts -ℤ week_start), h.within, near.above, near.below))

  pub row_of-IsRow :
      (id : ℤ) (l : LogLine) → IsOfWeek week_start l → IsRow (row_of is_whitespace week_start id l)
  unfolding row_of
  row_of-IsRow id l h = record {
    within = rw (rel_of l h) (omega (int_laws, h.within), omega (int_laws, h.within));
    stream = l.stream;
    stream_code = refl;
    level = detect_level is_whitespace (codes l.line);
    level_code_eq = refl;
    six = h.six;
  }

  pub row_of-line :
      (service : String) (week : Text) (id : ℤ) (l : LogLine) (h : IsOfWeek week_start l)
      → (entry_of service week week_start
          (row_of is_whitespace week_start id l)
          (row_of-IsRow id l h)).line
        ≡ stored_line is_whitespace service l
  unfolding row_of row_of-IsRow
  row_of-line service week id l h =
      ap
        (λ (ts : ℤ). record l {
          ts = ts;
          service = service;
          level = detect_level is_whitespace (codes l.line);
        })
        (eq_of_parts (wrap_i64 (l.ts -ℤ week_start) +ℤ week_start) l.ts
          (rw (rel_of l h) (omega int_laws)))

  pub insert_rows-IsRow :
      (lines : List LogLine) (rows : List LogRow)
      → All (IsOfWeek week_start) lines
      → All IsRow rows
      → All IsRow (insert_rows is_whitespace week_start lines rows)
  unfolding insert_rows
  insert_rows-IsRow [] rows h k = k
  insert_rows-IsRow (l ∷ lines) rows h k =
      insert_rows-IsRow lines
        (rows ++ row_of is_whitespace week_start (last_id rows +ℤ pos 1) l ∷ []) h.1
        (All-append IsRow rows (row_of is_whitespace week_start (last_id rows +ℤ pos 1) l ∷ []) k
          (row_of-IsRow (last_id rows +ℤ pos 1) l h.0, tt))

  pub insert_rows-IsKeyed :
      (lines : List LogLine) (rows : List LogRow)
      → IsKeyed rows
      → IsKeyed (insert_rows is_whitespace week_start lines rows)
  unfolding insert_rows
  insert_rows-IsKeyed [] rows k = k
  insert_rows-IsKeyed (l ∷ lines) rows k =
      insert_rows-IsKeyed lines
        (rows ++ row_of is_whitespace week_start (last_id rows +ℤ pos 1) l ∷ [])
        (IsKeyed-append rows (row_of is_whitespace week_start (last_id rows +ℤ pos 1) l) k
          (All-map rows (λ x h. above x h) (last_id-max rows)))
    where
      above :
          (x : LogRow)
          → x.id ≤ℤ last_id rows
          → x.id <ℤ (row_of is_whitespace week_start (last_id rows +ℤ pos 1) l).id
      above x h = unfold row_of in omega (int_laws, h)
