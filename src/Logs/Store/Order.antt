-- ===== src/Logs/Store/Order.antt =====
-- src/logs/store.rs: the timeline is in the order of time, and of ids where times are the same.
use vpsiner.Prelude.{
  ◌≡◌, ◌≢◌, refl, sym, ap, ◌∙◌, Bool, true, false, String, List, [], ◌∷◌, map, some, ℤ, pos, ◌+ℤ◌,
  ◌≤ℤ◌, ◌<ℤ◌, pos_part, neg_part, leb_ℤ, eq_of_parts, All, All-append, concat, lookup, Eq-Text,
  Text, Bool-cases, Option-cases, inl, inr, arith, int_laws, +ℤ_parts, leb_ℤ_iff,
}
use vpsiner.Prelude.Ordered.{IsOrdered, IsOrdered-append, All-map}
use vpsiner.Logs.Weeks.{near, IsWeeks, week_ms}
use vpsiner.Logs.Rows.{LogRow, StoredLog, row_before, insert_ordered, order_rows, decode_rows}
use vpsiner.Logs.Rows.Readable.{IsRow, entry_of, decode_row-entry_of}
use vpsiner.Logs.Rows.Decoded.{All-order_rows, All-insert_ordered, decode_rows-some}
use vpsiner.Logs.Rows.Inserted.{IsKeyed}
use vpsiner.Logs.Store.{Platform, ServiceDir, or_empty, insert_week, read_week_files}
use vpsiner.Logs.Store.Wanted.{before}
use vpsiner.Logs.Store.Timeline.{
  IsDir, OneFileAWeek, entries, timeline, Starts, read_week_files-Starts, read_week_files-none,
  read_week_files-some, insert_week-All,
}

abbrev pub entry_lt : StoredLog → StoredLog → Bool
entry_lt a b = before a.ts a.id b.ts b.id

abbrev row_lt : LogRow → LogRow → Bool
row_lt a b = before a.ts_rel a.id b.ts_rel b.id

row_lt-of_before : (a b : LogRow) → row_before a b ≡ true → a.id ≢ b.id → row_lt a b ≡ true
row_lt-of_before a b e ne = ground (arith, eq_of_parts a.id b.id)

row_lt-of_not : (a b : LogRow) → row_before a b ≡ false → row_lt b a ≡ true
row_lt-of_not a b e = ground arith

row_lt_trans : (a b c : LogRow) → row_lt a b ≡ true → row_lt b c ≡ true → row_lt a c ≡ true
row_lt_trans a b c e f = ground arith

insert_ordered-IsOrdered :
    (r : LogRow) (rows : List LogRow)
    → All (λ (x : LogRow). r.id ≢ x.id) rows
    → IsOrdered row_lt rows
    → IsOrdered row_lt (insert_ordered r rows)
unfolding insert_ordered
insert_ordered-IsOrdered r [] ne h = (tt, tt)
insert_ordered-IsOrdered r (x ∷ rows) ne h = elim (Bool-cases (row_before r x)) [
  | inl e ↦
      let first = row_lt-of_before r x e ne.0 in
      rw e ((first, All-map rows (λ y lt. row_lt_trans r x y first lt) h.0), h)
  | inr e ↦ rw e (
    All-insert_ordered (λ y. row_lt x y ≡ true) r rows (row_lt-of_not r x e) h.0,
    insert_ordered-IsOrdered r rows ne.1 h.1,
  )
]

order_rows-IsOrdered : (rows : List LogRow) → IsKeyed rows → IsOrdered row_lt (order_rows rows)
unfolding order_rows
order_rows-IsOrdered [] h = tt
order_rows-IsOrdered (r ∷ rows) h =
    insert_ordered-IsOrdered r (order_rows rows)
      (All-order_rows (λ (x : LogRow). r.id ≢ x.id) rows
        (All-map rows (λ x lt e. ground (arith, ap pos_part e, ap neg_part e)) h.0))
      (order_rows-IsOrdered rows h.1)

-- A week ends before the next one begins.
abbrev pub IsApart : List (Text × ℤ) → Type 0
IsApart [] = Unit
IsApart (w ∷ ws) = All (λ (x : Text × ℤ). w.1 +ℤ pos week_ms ≤ℤ x.1) ws × IsApart ws

module _ (p : Platform) (laws : IsWeeks p.weeks) where
  week_then :
      (w x : Text × ℤ)
      → Starts p w
      → Starts p x
      → w.1 ≢ x.1
      → w.1 ≤ℤ x.1
      → w.1 +ℤ pos week_ms ≤ℤ x.1
  week_then w x e f ne le = elim (laws.apart w.0 x.0 w.1 x.1 e f) [
    | inl same ↦ absurd (ne same)
    | inr (inl h) ↦ h
    | inr (inr h) ↦ absurd (omega (int_laws, le, h))
  ]

  insert_week-IsApart :
      (w : Text × ℤ) (ws : List (Text × ℤ))
      → Starts p w
      → All (Starts p) ws
      → All (λ (x : Text × ℤ). x.1 ≢ w.1) ws
      → IsApart ws
      → IsApart (insert_week w ws)
  unfolding insert_week
  insert_week-IsApart w [] e es ne h = (tt, tt)
  insert_week-IsApart w (x ∷ ws) e es ne h = elim (Bool-cases (leb_ℤ w.1 x.1)) [
    | inl le ↦
        let first = week_then w x e es.0 (λ q. ne.0 (sym q)) ((leb_ℤ_iff w.1 x.1).0 le) in
        rw le ((first, All-map ws (λ y lt. omega (int_laws, first, lt)) h.0), h)
    | inr gt ↦ rw gt (
      insert_week-All p (λ (y : Text × ℤ). x.1 +ℤ pos week_ms ≤ℤ y.1) w ws
          (week_then x w es.0 e ne.0 (ground arith)) h.0,
      insert_week-IsApart w ws e es.1 ne.1 h.1,
    )
  ]

  other_start :
      (start : ℤ) (dir : ServiceDir)
      → All (λ (file : Text × List LogRow). p.weeks.start file.0 ≢ some start) dir
      → All (λ (x : Text × ℤ). x.1 ≢ start) (read_week_files p dir)
  other_start start [] h = unfold read_week_files in tt
  other_start start ((name, rows) ∷ dir) h = elim (Option-cases (p.weeks.start name)) [
    | inl e ↦ rw (read_week_files-none p name rows dir e) (other_start start dir h.1)
    | inr (s, e) ↦ rw (read_week_files-some p name rows s dir e) (
        insert_week-All p (λ (x : Text × ℤ). x.1 ≢ start) (name, s) (read_week_files p dir)
          (λ q. h.0 (e ∙ ap some q)) (other_start start dir h.1))
  ]

  read_week_files-IsApart :
      (dir : ServiceDir) → OneFileAWeek p.weeks dir → IsApart (read_week_files p dir)
  read_week_files-IsApart [] h = unfold read_week_files in tt
  read_week_files-IsApart ((name, rows) ∷ dir) h = elim (Option-cases (p.weeks.start name)) [
    | inl e ↦ rw (read_week_files-none p name rows dir e) (read_week_files-IsApart dir h.1)
    | inr (start, e) ↦ rw (read_week_files-some p name rows start dir e) (
        insert_week-IsApart (name, start) (read_week_files p dir) e (read_week_files-Starts p dir)
          (other_start start dir (All-map dir (λ file f. f start e) h.0))
          (read_week_files-IsApart dir h.1))
  ]

-- The entry is one of the week.
abbrev pub InWeek : Text × ℤ → StoredLog → Type 0
InWeek w e = (e.week ≡ w.0) × (w.1 ≤ℤ e.ts) × (e.ts <ℤ w.1 +ℤ pos week_ms)

entry_lt-of_row :
    (service : String) (week : Text) (start : ℤ) (a b : LogRow) (h : IsRow a) (k : IsRow b)
    → row_lt a b ≡ true
    → entry_lt (entry_of service week start a h) (entry_of service week start b k) ≡ true
entry_lt-of_row service week start a b h k e =
    ground (arith, +ℤ_parts a.ts_rel start, +ℤ_parts b.ts_rel start)

entry_lt-across :
    (a b : StoredLog) (w x : Text × ℤ)
    → InWeek w a
    → InWeek x b
    → w.1 +ℤ pos week_ms ≤ℤ x.1
    → entry_lt a b ≡ true
entry_lt-across a b w x h k lt = ground (arith, h, k)

module _ (p : Platform) (laws : IsWeeks p.weeks) (service : String) (w : Text × ℤ)
    (e : Starts p w) where
  abbrev decoded : List LogRow → List StoredLog
  decoded rows = decode_rows service w.0 w.1 rows

  decoded_cons :
      (r : LogRow) (rows : List LogRow) (h : IsRow r)
      → decoded (r ∷ rows) ≡ entry_of service w.0 w.1 r h ∷ decoded rows
  decoded_cons r rows h =
      decode_rows-some service w.0 w.1 r (entry_of service w.0 w.1 r h) rows
        (decode_row-entry_of w.1 (near laws w.0 w.1 e) r h service w.0)

  decoded-All :
      (P : LogRow → Type 0) (Q : StoredLog → Type 0)
      → ((r : LogRow) (h : IsRow r) → P r → Q (entry_of service w.0 w.1 r h))
      → (rows : List LogRow) → All IsRow rows
      → All P rows
      → All Q (decoded rows)
  decoded-All P Q f [] h k = unfold decode_rows in tt
  decoded-All P Q f (r ∷ rows) h k =
      rw (decoded_cons r rows h.0) (f r h.0 k.0, decoded-All P Q f rows h.1 k.1)

  decoded-IsOrdered :
      (rows : List LogRow)
      → All IsRow rows
      → IsOrdered row_lt rows
      → IsOrdered entry_lt (decoded rows)
  decoded-IsOrdered [] h k = unfold decode_rows in tt
  decoded-IsOrdered (r ∷ rows) h k = rw (decoded_cons r rows h.0) (
    decoded-All (λ x. row_lt r x ≡ true) (λ y. entry_lt (entry_of service w.0 w.1 r h.0) y ≡ true)
        (λ x hx lt. entry_lt-of_row service w.0 w.1 r x h.0 hx lt) rows h.1 k.0,
    decoded-IsOrdered rows h.1 k.1,
  )

  module _ (dir : ServiceDir) (valid : IsDir p.weeks dir) where
    ordered_rows : All IsRow (order_rows (or_empty (lookup w.0 dir)))
    ordered_rows = All-order_rows IsRow (or_empty (lookup w.0 dir)) (valid.rows w.0)

    entries-IsOrdered : IsOrdered entry_lt (entries service dir w)
    entries-IsOrdered =
        decoded-IsOrdered (order_rows (or_empty (lookup w.0 dir))) ordered_rows
          (order_rows-IsOrdered (or_empty (lookup w.0 dir)) (valid.keyed w.0))

    pub entries-InWeek : All (InWeek w) (entries service dir w)
    entries-InWeek =
        decoded-All IsRow (InWeek w)
          (λ r h k. (refl, omega (int_laws, k.within), omega (int_laws, k.within)))
          (order_rows (or_empty (lookup w.0 dir))) ordered_rows ordered_rows

module _ (p : Platform) (laws : IsWeeks p.weeks) (service : String) (dir : ServiceDir)
    (valid : IsDir p.weeks dir) where
  abbrev weeks_entries : List (Text × ℤ) → List StoredLog
  weeks_entries ws = concat (map (entries service dir) ws)

  -- What holds of the entries of each week holds of all.
  weeks-All :
      (Q : StoredLog → Type 0) (P : Text × ℤ → Type 0)
      → ((w : Text × ℤ) → P w → (e : StoredLog) → InWeek w e → Q e)
      → (ws : List (Text × ℤ)) → All (Starts p) ws
      → All P ws
      → All Q (weeks_entries ws)
  weeks-All Q P f [] h k = tt
  weeks-All Q P f (w ∷ ws) h k =
      All-append Q (entries service dir w) (weeks_entries ws)
        (All-map (entries service dir w) (f w k.0) (entries-InWeek p laws service w h.0 dir valid))
        (weeks-All Q P f ws h.1 k.1)

  weeks-IsOrdered :
      (ws : List (Text × ℤ))
      → All (Starts p) ws
      → IsApart ws
      → IsOrdered entry_lt (weeks_entries ws)
  weeks-IsOrdered [] h k = tt
  weeks-IsOrdered (w ∷ ws) h k =
      IsOrdered-append entry_lt (entries service dir w) (weeks_entries ws)
        (entries-IsOrdered p laws service w h.0 dir valid) (weeks-IsOrdered ws h.1 k.1)
        (All-map (entries service dir w)
          (λ a ha.
            weeks-All (λ b. entry_lt a b ≡ true) (λ (x : Text × ℤ). w.1 +ℤ pos week_ms ≤ℤ x.1)
              (λ x lt b hb. entry_lt-across a b w x ha hb lt) ws h.1 k.0)
          (entries-InWeek p laws service w h.0 dir valid))

  -- The timeline of a directory as the store writes it ascends strictly by time, and by id where
  -- the times are equal.
  pub timeline-IsOrdered : IsOrdered entry_lt (timeline p service dir)
  timeline-IsOrdered =
      weeks-IsOrdered (read_week_files p dir) (read_week_files-Starts p dir)
        (read_week_files-IsApart p laws dir valid.one_file)

  pub timeline-InWeek :
      All (λ (e : StoredLog). (w : Text × ℤ) × Starts p w × InWeek w e) (timeline p service dir)
  timeline-InWeek =
      weeks-All (λ (e : StoredLog). (w : Text × ℤ) × Starts p w × InWeek w e) (Starts p)
        (λ w s e i. (w, s, i)) (read_week_files p dir) (read_week_files-Starts p dir)
        (read_week_files-Starts p dir)
